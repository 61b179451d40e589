-- ===== src/Lib.antt =====
-- The smart contracts of this repository and the theorems that make them correct: an escrow
-- (Commerce), an auction, the Open Vote Network, a Fibonacci contract and a piggy bank. The
-- contracts do not call each other; each has a state on the chain and entrypoints that the chain
-- calls with a sender, a time, a parameter and an amount, and that may transfer from the
-- contract's balance. The off-chain functions of the Open Vote Network create the messages that
-- its contract checks.
--
-- Prelude: Boolean tests on native numbers and lists that are indexed by them; a `u64` is a number
-- below 2^64 and its arithmetic wraps (`u64`).
-- Contract: an entrypoint as an action on the contract's state and the chain that ends in a value,
-- a rejection or a trap (`Monad`), the host as an interface with laws (`Platform`), a concrete
-- host that meets them (`Ledger`), and the state map as a list of entries in the order of the
-- keys, which is the order of its iterator (`StateMap`). `commit` is the chain's rule that only an
-- entrypoint that succeeds changes anything.
--
-- Commerce (Commerce/src/lib.rs): `Types` has the items, purchases and states, `Buyer` and
-- `Seller` the entrypoints buyer_* and seller_*, `Entry` the dispatch of a call. `Lifecycle` and
-- `Effect` say which moves a purchase may make and what each pays, `History` closes them under any
-- calls, and `Solvency`, `Evolution` and `Rejections` are about histories and failures. `Paths` is
-- the map of choices of the property-based tests with the call made for each, `Paths.Draws` how a
-- path or a list of functions is drawn, `Paths.Check` property_check and `Paths.Random`
-- property_check2; `Paths.Steps`, `Paths.Passing`, `Paths.Arriving` and `Paths.Checked` walk the
-- paths of the first, and `Paths.RandomChecked` is about the second.
-- Auction (Auction/src/lib.rs): `Auction` has auction_init, auction_bid and auction_finalize with
-- the loop over the bids; `Bids` sums bids up, `Bidding` and `Finalizing` are about the two
-- entrypoints, `Bounds` about its sums and `History` about any calls.
-- OpenVote (open-vote-network/): `Util` is util/src/lib.rs, `Crypto` voting/src/crypto.rs, `Types`
-- voting/src/types.rs with the messages and the state of voting/src/lib.rs, `Voting` the
-- entrypoints setup, register, commit, vote and result, `Voting.Phases` change_phase and
-- refund_deposits, `OffChain`, `OffChain.Keys` and `OffChain.Membership` off-chain/src/lib.rs, and
-- `OffChain.Program` off-chain/src/main.rs. `Curve` is the interface of the libraries for the
-- curve, the hash and the verification of Merkle proofs, `Merkle` that of the trees which proofs
-- are taken from, and `SmallCurve` a concrete group that meets the laws. `Voting.Accepted`,
-- `Voting.Changing`, `Voting.Refunds` and `Voting.Aborting` are about single calls, `Voting.Ending`
-- about change_phase after the deadlines,
-- `Voting.Starting` about setup, `Voting.History`, `Voting.Soundness`, `Voting.Integrity` and
-- `Voting.Persistence` about histories, and `Voting.Outcomes` with `Crypto.Tally` about the tally.
-- `Voting.Completing` follows an election whose messages meet the checks: `Accepts` one call,
-- `Seats` and `Stages` where the election stands, `Registering`, `Committing` and `Balloting` the
-- three phases, and `Finishing` all of them. `OffChain.Proofs` is about honest proofs, and
-- `OffChain.Loops`, `OffChain.Reconstruction`, `OffChain.Cancelling`, `OffChain.Election` and
-- `OffChain.Outcome` about the votes of honest voters. `OffChain.Program.Rounds` says what the
-- loops of the program have made, `Passing` and `Elected` are about the checks of its messages,
-- `Counted` about the tally, and `TestElection` about all of it with the configuration that it
-- writes.
-- Fibonacci (Fibonacci/src/lib.rs) and Piggybank (Piggybank/src/lib.rs) have their entrypoints,
-- and `Sums`, `Bounds`, which also has the properties of the tests, and `History` what is shown of
-- them. MultiAssert (Other/Multi_assert.rs) collects assertions and runs them together, and
-- `Failures` says when that panics.
--
-- Fuel and bounds: the loop of the tally has no bound of its own, so it runs on fuel that stands
-- for the energy of the call; fuel above the result is enough, and less is a trap. The other loops
-- run over a list or an index range. A `usize` of the contracts has 32 bits, an `i32` is its 32
-- bits. An account is one number, since the contracts only compare accounts; a parameter that does
-- not parse is `none`; a random scalar is an argument, and so are the numbers that a generator of
-- the tests yields, of which five are enough for a path.
--
-- Not modelled: the serialization of parameters and states, the schemas, the tests apart from
-- the property tests of Commerce and Fibonacci, the files that off-chain/src/main.rs writes
-- and the base58 text of its accounts, Commerce/src/commerce.rs, a copy of lib.rs without tests,
-- and the two libraries that the repository keeps copies of
-- (concordium-rust-smart-contracts-new-contract-state and open-vote-network/rs-merkle).
pub mod Prelude
pub mod Contract
pub mod Commerce
pub mod Auction
pub mod OpenVote
pub mod Fibonacci
pub mod Piggybank
pub mod MultiAssert

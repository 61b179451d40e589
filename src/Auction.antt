-- ===== src/Auction.antt =====
-- Auction/src/lib.rs: the state of the auction, `auction_init`, `auction_bid` and
-- `auction_finalize`.
pub mod Bids
pub mod Bidding
pub mod Finalizing
pub mod History
pub mod Bounds
mod Tests
use Prim.Native.String.{String}
use bachelor_project.Prelude.{
  ℕ, ◌+◌, Bool, true, false, Option, none, some, List, [], ◌∷◌, u64, ltb, leb, ◌==◌,
}
use bachelor_project.Contract.{
  AccountAddress, Amount, Timestamp, Address, account, contract, ReceiveContext, Outcome, ok, err,
  Reject, World, Receive, pure, bail, gets, ensure, modify, ◌>>=◌, ◌>>◌, Host, transfer,
}
use bachelor_project.Contract.StateMap.{StateMap, lookup, insert}

pub data AuctionState : Type 0 where
  not_sold_yet : AuctionState
  sold : AccountAddress → AuctionState

abbrev pub is_not_sold : AuctionState → Bool
is_not_sold not_sold_yet = true
is_not_sold (sold _) = false

pub record State : Type 0 where
  pub auction_state : AuctionState
  pub highest_bid : Amount
  pub item : String
  pub expiry : Timestamp
  pub bids : StateMap Amount

pub record InitParameter : Type 0 where
  pub item : String
  pub expiry : Timestamp

pub data BidError : Type 0 where
  contract_sender bid_too_low bids_over_waiting_for_auction_finalization auction_finalized :
      BidError

pub data FinalizeError : Type 0 where
  bid_map_error auction_still_active auction_finalized : FinalizeError

unfoldable pub auction_init : Option InitParameter → Outcome Reject State
auction_init none = err Reject.parse_error
auction_init (some parameter) = ok (record {
  auction_state = not_sold_yet;
  highest_bid = 0;
  item = parameter.item;
  expiry = parameter.expiry;
  bids = [];
})

-- `bids.entry(a).or_insert(0)`, then read
abbrev pub bid_of : AccountAddress → StateMap Amount → Amount
bid_of a bids = elim (lookup a bids) [ none ↦ 0 | some x ↦ x ]

abbrev sender_account : {W : Type 0} → Address → Receive W BidError AccountAddress
sender_account (account a) = pure a
sender_account (contract _ _) = bail contract_sender

module _ (h : Host) where
  abbrev pub Auction : Type 0
  Auction = World State h.Chain

  abbrev set_bid : AccountAddress → Amount → Auction → Auction
  set_bid a x w = record w { state = record w.state { bids = insert a x w.state.bids } }

  -- The raised bid is written before it is compared.
  unfoldable pub auction_bid : ReceiveContext → Amount → Receive Auction BidError (Unit {0})
  auction_bid ctx amount = do
    state ← gets (λ w. w.state)
    ensure (is_not_sold state.auction_state) BidError.auction_finalized
    ensure (leb ctx.slot_time state.expiry) bids_over_waiting_for_auction_finalization
    sender ← sender_account ctx.sender
    let bid = u64 (bid_of sender state.bids + amount)
    modify (set_bid sender bid)
    ensure (ltb state.highest_bid bid) bid_too_low
    modify (λ w. record w { state = record w.state { highest_bid = bid } })
    pure tt

  -- `if host.invoke_transfer(a, x).is_err() { bail!(BidMapError) }`
  abbrev pay_or_bail : AccountAddress → Amount → Receive Auction FinalizeError (Unit {0})
  pay_or_bail a x = do
    failed ← transfer h a x
    elim failed [ none ↦ pure tt | some e ↦ bail bid_map_error ]

  -- The loop over the bids: a smaller bid is paid back, and one other may remain.
  unfoldable pub return_bids :
      Amount
      → StateMap Amount
      → Option (AccountAddress × Amount)
      → Receive Auction FinalizeError (Option (AccountAddress × Amount))
  return_bids highest [] remaining = pure remaining
  return_bids highest ((a, x) ∷ bids) remaining = elim (ltb x highest) [
    | true ↦ pay_or_bail a x >> return_bids highest bids remaining
    | false ↦ elim remaining [
      | none ↦ return_bids highest bids (some (a, x))
      | some other ↦ bail bid_map_error
    ]
  ]

  -- `match remaining_bid { … }`
  abbrev pub sell :
      Amount → Option (AccountAddress × Amount) → Receive Auction FinalizeError (Unit {0})
  sell highest none = bail bid_map_error
  sell highest (some (a, x)) = do
    ensure (x == highest) bid_map_error
    modify (λ w. record w { state = record w.state { auction_state = sold a } })
    pure tt

  unfoldable pub auction_finalize : ReceiveContext → Receive Auction FinalizeError (Unit {0})
  auction_finalize ctx = do
    state ← gets (λ w. w.state)
    ensure (is_not_sold state.auction_state) FinalizeError.auction_finalized
    ensure (ltb state.expiry ctx.slot_time) auction_still_active
    balance ← gets (λ w. h.self_balance w.chain)
    elim (balance == 0) [
      | true ↦ pure tt
      | false ↦ do
        pay_or_bail ctx.owner state.highest_bid
        remaining ← return_bids state.highest_bid state.bids none
        sell state.highest_bid remaining
    ]

-- ===== src/OpenVote/OffChain/Program/TestElection.antt =====
-- open-vote-network/off-chain/src/main.rs with voting/src/lib.rs: the test election, from the
-- configuration and the messages that the program writes to the result of the contract.
use bachelor_project.Prelude.{ℕ, ◌≡◌, ◌≢◌, ◌<◌, ◌≤◌, refl, true, some, List, length}
use bachelor_project.Contract.{AccountAddress, Timestamp, Host, HostLaws, ok}
use bachelor_project.OpenVote.Curve.{Bytes, Curve, CurveLaws}
use bachelor_project.OpenVote.Merkle.{MerkleTrees, MerkleLaws}
use bachelor_project.OpenVote.Crypto.Tally.{multiple}
use bachelor_project.OpenVote.Types.{
  RegisterMessage, CommitMessage, VoteMessage, VoteConfig, VotingState, is_given,
}
use bachelor_project.OpenVote.Voting.{Election, setup, result}
use bachelor_project.OpenVote.Voting.History.{run}
use bachelor_project.OpenVote.Voting.Completing.Seats.{Seat, Distinct}
use bachelor_project.OpenVote.Voting.Completing.Finishing.{election_calls}
use bachelor_project.OpenVote.OffChain.Election.{voting_keys, AllDiffer}
use bachelor_project.OpenVote.OffChain.Outcome.{yes_or_no}
use bachelor_project.OpenVote.OffChain.Program.{main, make_voteconfig}
use bachelor_project.OpenVote.OffChain.Program.Counted.{result_counts_all}
use bachelor_project.OpenVote.OffChain.Program.Elected.{seats_of, AllReadable, all_yes}
use bachelor_project.OpenVote.OffChain.Program.Rounds.{secrets_of}

module _ (c : Curve) (laws : CurveLaws c) (m : MerkleTrees c) (tree_laws : MerkleLaws c m)
    (h : Host) (host_laws : HostLaws h)
    (digest : (bytes : Bytes) → is_given (c.sha256 bytes) ≡ true)
    (known : (a : AccountAddress) → h.is_account a ≡ true) (owner : AccountAddress)
    (register_at commit_at vote_at : Seat → Timestamp) (accounts : List AccountAddress) where
  abbrev config : VoteConfig
  config = make_voteconfig c m accounts

  -- The contract, set up with the configuration that the program writes, accepts the messages that the
  -- program makes for two voters or more, and counts a yes of everybody: if the program does not
  -- panic, no part of a message is the identity or zero, the accounts and the voting keys differ,
  -- everybody calls before the deadlines, fewer generators than voters do not reach the same point,
  -- and enough energy is given.
  pub result-main :
      (now : Timestamp) (chain : h.Chain) (fuel : ℕ) (draws : List (c.Scalar × c.Scalar))
      (vote_draws : List (c.Scalar × c.Scalar × c.Scalar))
      {messages : List RegisterMessage × List CommitMessage × List VoteMessage} {st : VotingState}
      → main c m accounts draws vote_draws ≡ some messages
      → setup now (some config) ≡ ok st
      → length draws ≡ length accounts
      → 2 ≤ length accounts
      → length accounts < 2147483648
      → let seats = seats_of accounts messages.0 messages.1 messages.2 in
        AllReadable c seats
        → Distinct seats
        → AllDiffer c (voting_keys c (yes_or_no c (all_yes c (secrets_of c draws))))
        → ((t : Seat) → register_at t ≤ config.registration_timeout)
        → ((t : Seat) → commit_at t ≤ config.commit_timeout)
        → ((t : Seat) → vote_at t ≤ config.vote_timeout)
        → ((j : ℕ) → j < length accounts → multiple c j ≢ multiple c (length accounts))
        → length accounts < fuel
        → let v : Election c h =
            run c h
              (election_calls owner config.deposit register_at commit_at vote_at seats)
              (record { state = st; chain = chain }) in
          result c h fuel v ≡ (
            ok (length accounts, 0),
            record v { state = record v.state { voting_result = (length accounts, 0) } },
          )
  result-main now chain fuel draws vote_draws ran up as_many many few readable distinct differ t1 t2
        t3 apart room =
      result_counts_all c laws m tree_laws h host_laws config digest known owner register_at
        commit_at vote_at accounts now chain fuel draws vote_draws ran up refl refl as_many many few
        readable distinct differ t1 t2 t3 apart room

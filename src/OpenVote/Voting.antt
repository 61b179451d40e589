-- ===== src/OpenVote/Voting.antt =====
-- open-vote-network/voting/src/lib.rs: `setup`, `register`, `commit`, `vote` and `result`;
-- `change_phase` and `refund_deposits` are in `Phases`.
pub mod Phases
pub mod Accepted
pub mod Refunds
pub mod Changing
pub mod Aborting
pub mod History
pub mod Soundness
pub mod Integrity
pub mod Persistence
pub mod Outcomes
pub mod Starting
pub mod Completing
pub mod Ending
use bachelor_project.Prelude.{
  ℕ, zero, suc, ◌+◌, ◌-◌, Bool, true, false, not, ◌&&◌, Option, none, some, List, [], ◌∷◌, ltb, leb,
  ◌==◌, length, if◌then◌else◌,
}
use bachelor_project.Contract.{
  AccountAddress, Amount, Timestamp, Address, account, contract, ReceiveContext, Outcome, ok, err,
  World, Receive, pure, bail, gets, unwrap, or_bail, ensure, modify, ◌>>=◌, ◌>>◌, Host, transfer,
}
use bachelor_project.Contract.StateMap.{StateMap, lookup, insert}
use bachelor_project.OpenVote.Curve.{Bytes, Curve}
use bachelor_project.OpenVote.Util.{convert_vec_to_point}
use bachelor_project.OpenVote.Crypto.{
  verify_schnorr_zkp, verify_one_in_two_zkp, check_commitment, brute_force_tally,
  verify_merkle_proof,
}
use bachelor_project.OpenVote.Types.{
  i32, minus_one, VotingPhase, is_phase, SetupError, RegisterError, CommitError, VoteError,
  ResultError, VoteConfig, RegisterMessage, CommitMessage, VoteMessage, Voter, default_voter,
  VotingState, is_given,
}

-- The comparison of the deposit with zero is kept; on a `u64` it always holds.
unfoldable pub setup : Timestamp → Option VoteConfig → Outcome SetupError VotingState
setup slot_time none = err SetupError.parse_params
setup slot_time (some config) =
    if not (ltb slot_time config.registration_timeout)
    then err SetupError.invalid_registration_timeout
    else if not (ltb config.registration_timeout config.commit_timeout)
    then err SetupError.invalid_precommit_timeout
    else if not (ltb config.commit_timeout config.vote_timeout)
    then err SetupError.invalid_vote_timeout
    else if not (leb 0 config.deposit)
    then err SetupError.negative_deposit
    else ok (record {
      config = config;
      voting_phase = VotingPhase.registration;
      voting_result = (minus_one, minus_one);
      voters = [];
    })

-- `match ctx.sender() { Contract(_) => bail!(e), Account(a) => a }`
abbrev pub sender_account : {W E : Type 0} → E → Address → Receive W E AccountAddress
sender_account e (account a) = pure a
sender_account e (contract _ _) = bail e

-- `iter().all(…)`
abbrev pub all_voters : (Voter → Bool) → StateMap Voter → Bool
all_voters test [] = true
all_voters test ((a, v) ∷ voters) = test v && all_voters test voters

abbrev pub has_committed : Voter → Bool
has_committed v = is_given v.commitment && is_given v.reconstructed_key

abbrev pub has_voted : Voter → Bool
has_voted v = is_given v.vote

-- `iter().map(|(_, v)| convert_vec_to_point(&v.vote))`
unfoldable pub vote_points : (c : Curve) → StateMap Voter → Option (List c.Point)
vote_points c [] = some []
vote_points c ((a, v) ∷ voters) = elim (convert_vec_to_point c v.vote) [
  | none ↦ none
  | some p ↦ elim (vote_points c voters) [ none ↦ none | some ps ↦ some (p ∷ ps) ]
]

module _ (c : Curve) (h : Host) where
  abbrev pub Election : Type 0
  Election = World VotingState h.Chain

  abbrev pub set_voters : StateMap Voter → Election → Election
  set_voters voters w = record w { state = record w.state { voters = voters } }

  abbrev pub set_phase : VotingPhase → Election → Election
  set_phase phase w = record w { state = record w.state { voting_phase = phase } }

  -- The end of `register`, for a voter that has just been entered.
  unfoldable pub enter_key :
      AccountAddress → RegisterMessage → Receive Election RegisterError (Unit {0})
  enter_key sender message = do
    state ← gets (λ w. w.state)
    voter ← unwrap (← gets (λ w. lookup sender w.state.voters))
    or_bail (c.from_sec1_bytes message.voting_key) RegisterError.invalid_voting_key
    key ← unwrap (convert_vec_to_point c message.voting_key)
    proved ← unwrap (verify_schnorr_zkp c key message.voting_key_zkp)
    ensure proved RegisterError.invalid_zkp
    modify (λ w.
        set_voters
          (insert sender
            (record voter {
              voting_key = message.voting_key;
              voting_key_zkp = message.voting_key_zkp;
            })
            w.state.voters)
          w)
    count ← gets (λ w. length w.state.voters)
    modify (λ w.
        if i32 count == state.config.merkle_leaf_count then set_phase VotingPhase.commit w else w)
    pure tt

  -- The voter is entered before the key and its proof are checked.
  unfoldable pub register :
      ReceiveContext → Option RegisterMessage → Amount → Receive Election RegisterError (Unit {0})
  register ctx parameter deposit = do
    message ← or_bail parameter RegisterError.parse_params
    sender ← sender_account RegisterError.contract_sender ctx.sender
    state ← gets (λ w. w.state)
    ensure (is_phase state.voting_phase VotingPhase.registration)
        RegisterError.not_registration_phase
    authorized ← unwrap (
        verify_merkle_proof c state.config.merkle_root state.config.merkle_leaf_count
          message.merkle_proof sender)
    ensure authorized RegisterError.unauthorized_voter
    ensure (state.config.deposit == deposit) RegisterError.wrong_deposit
    ensure (leb ctx.slot_time state.config.registration_timeout) RegisterError.phase_ended
    elim (lookup sender state.voters) [
      | some v ↦ bail RegisterError.already_registered
      | none ↦ modify (set_voters (insert sender default_voter state.voters))
    ]
    enter_key sender message

  unfoldable pub commit :
      ReceiveContext → Option CommitMessage → Receive Election CommitError (Unit {0})
  commit ctx parameter = do
    message ← or_bail parameter CommitError.parse_params
    sender ← sender_account CommitError.contract_sender ctx.sender
    ensure (is_given message.commitment) CommitError.invalid_commit_message
    ensure (is_given message.reconstructed_key) CommitError.invalid_commit_message
    state ← gets (λ w. w.state)
    ensure (is_phase state.voting_phase VotingPhase.commit) CommitError.not_commit_phase
    or_bail (lookup sender state.voters) CommitError.unauthorized_voter
    ensure (leb ctx.slot_time state.config.commit_timeout) CommitError.phase_ended
    voter ← or_bail (lookup sender state.voters) CommitError.voter_not_found
    modify (
        set_voters (
          insert sender
            (record voter {
              reconstructed_key = message.reconstructed_key;
              commitment = message.commitment;
            })
            state.voters))
    modify
        (λ w. if all_voters has_committed w.state.voters then set_phase VotingPhase.vote w else w)
    pure tt

  unfoldable pub vote : ReceiveContext → Option VoteMessage → Receive Election VoteError (Unit {0})
  vote ctx parameter = do
    message ← or_bail parameter VoteError.parse_params
    sender ← sender_account VoteError.contract_sender ctx.sender
    state ← gets (λ w. w.state)
    ensure (is_phase state.voting_phase VotingPhase.vote) VoteError.not_vote_phase
    or_bail (lookup sender state.voters) VoteError.unauthorized_voter
    ensure (leb ctx.slot_time state.config.vote_timeout) VoteError.phase_ended
    voter ← or_bail (lookup sender state.voters) VoteError.voter_not_found
    ensure (not (is_given voter.vote)) VoteError.already_voted
    g_y ← unwrap (convert_vec_to_point c voter.reconstructed_key)
    proved ← unwrap (verify_one_in_two_zkp c message.vote_zkp g_y)
    ensure proved VoteError.invalid_zkp
    point ← unwrap (convert_vec_to_point c message.vote)
    ensure (check_commitment c point voter.commitment) VoteError.vote_commitment_mismatch
    modify (
        set_voters (
          insert sender (record voter { vote = message.vote; vote_zkp = message.vote_zkp })
            state.voters))
    modify (λ w. if all_voters has_voted w.state.voters then set_phase VotingPhase.result w else w)
    refused ← transfer h sender state.config.deposit
    elim refused [ none ↦ pure tt | some e ↦ bail VoteError.do_transfer ]

  -- The fuel stands for the energy of the call, which ends in a trap where it runs out.
  unfoldable pub result : ℕ → Receive Election ResultError (ℕ × ℕ)
  result fuel = do
    state ← gets (λ w. w.state)
    ensure (is_phase state.voting_phase VotingPhase.result) ResultError.not_result_phase
    votes ← unwrap (vote_points c state.voters)
    yes_votes ← unwrap (brute_force_tally c fuel votes)
    let no_votes = i32 (length votes + 4294967296 - i32 yes_votes)
    modify (λ w. record w { state = record w.state { voting_result = (i32 yes_votes, no_votes) } })
    pure (i32 yes_votes, no_votes)

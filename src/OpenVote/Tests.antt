-- ===== src/OpenVote/Tests.antt =====
-- Elections of open-vote-network/ on the concrete host and the numbers modulo 5: accounts 1 and 2
-- register, commit and vote, with a deposit of 10.
mod Calls
mod Voters
mod Program
mod Completing
use bachelor_project.Prelude.{
  Bool, false, Option, ap, sym, ◌∙◌, ℕ, ◌<◌, ◌≡◌, ◌≢◌, ◌↔◌, refl, true, some, List, [], ◌∷◌, ◌++◌,
  length, arith,
}
use bachelor_project.Contract.{Amount, account, AccountAddress, ReceiveContext, ok}
use bachelor_project.Contract.Ledger.{ledger_host, ledger_host-HostLaws, pay}
use bachelor_project.OpenVote.SmallCurve.{
  Residue, number, one, two, three, four, small_curve, small_curve-CurveLaws,
}
use bachelor_project.OpenVote.Util.{
  OneInTwoZkp, SchnorrProof, new_one_in_two_zkp, new_schnorr_proof, convert_vec_to_scalar,
  convert_vec_to_point, hash_to_scalar, extract_scalars, extract_points, extract_primitives,
}
use bachelor_project.OpenVote.Crypto.{
  verify_schnorr_zkp, verify_one_in_two_zkp, check_commitment, sum_votes, count_up,
  brute_force_tally, verify_merkle_proof,
}
use bachelor_project.OpenVote.Types.{
  VotingPhase, VoteConfig, RegisterMessage, CommitMessage, VoteMessage, Voter, minus_one,
  default_voter,
}
use bachelor_project.OpenVote.Voting.{
  Election, register, enter_key, commit, vote, vote_points, result,
}
use bachelor_project.OpenVote.Voting.Phases.{refund_all, refund_deposits, change_phase}
use bachelor_project.OpenVote.Voting.History.{
  Call, register_call, commit_call, vote_call, result_call, transact, run,
}
use bachelor_project.OpenVote.Crypto.Tally.{multiple, IsLeast, brute_force_tally_iff}
use bachelor_project.OpenVote.Voting.Accepted.{Registers, register-Registers}
use bachelor_project.OpenVote.Voting.Accepted.Ballots.{Commits, commit-Commits, Votes, vote-Votes}
use bachelor_project.OpenVote.Voting.Changing.{Changes, change_phase-Changes}
use bachelor_project.OpenVote.Voting.Aborting.{change_phase_aborts, change_phase_underfunded}
use bachelor_project.OpenVote.Voting.Integrity.{IsSound, run-Sound}
use bachelor_project.OpenVote.Voting.Persistence.{Registered, run-Registered, Rests, run-Rests}
use bachelor_project.OpenVote.Voting.Outcomes.{vote_points-IsSound, result_counts}
use bachelor_project.OpenVote.OffChain.Keys.{
  position, sum_keys, split_round, split_keys, compute_reconstructed_key,
}
use bachelor_project.OpenVote.OffChain.Reconstruction.{total, compute_reconstructed_key-total}
use bachelor_project.OpenVote.OffChain.Election.{
  voting_keys, choices, cast_all, AllDiffer, cast_all-total,
}
use bachelor_project.OpenVote.OffChain.Outcome.{yes_or_no, brute_force_tally-cast_all}
use bachelor_project.OpenVote.OffChain.Proofs.{
  create_schnorr_zkp-verify, create_one_in_two_zkp_yes-verify, create_one_in_two_zkp_no-verify,
}
use bachelor_project.OpenVote.OffChain.{
  subtract_point, create_schnorr_zkp, create_one_in_two_zkp_yes, create_one_in_two_zkp_no,
}

abbrev by : ℕ → ℕ → ReceiveContext
by a t = record { sender = account a; owner = 9; slot_time = t }

abbrev config : VoteConfig
config = record {
  merkle_root = [];
  merkle_leaf_count = 2;
  voting_question = "Vote for x";
  deposit = 10;
  registration_timeout = 100;
  commit_timeout = 200;
  vote_timeout = 300;
}

abbrev start : Election small_curve ledger_host
start = record {
  state = record {
    config = config;
    voting_phase = VotingPhase.registration;
    voting_result = (minus_one, minus_one);
    voters = [];
  };
  chain = record { balance = 0; paid = [] };
}

-- The scalar 1 with the random scalar 2.
abbrev key_zkp : SchnorrProof
key_zkp = record { g_w = 2 ∷ []; r = 3 ∷ [] }

key_zkp_created : create_schnorr_zkp small_curve two one one ≡ some key_zkp
unfolding create_schnorr_zkp hash_to_scalar convert_vec_to_scalar new_schnorr_proof
key_zkp_created = refl

abbrev yes_zkp : OneInTwoZkp
yes_zkp = record {
  r1 = 1 ∷ [];
  r2 = 3 ∷ [];
  d1 = 1 ∷ [];
  d2 = 3 ∷ [];
  x = 1 ∷ [];
  y = 2 ∷ [];
  a1 = 2 ∷ [];
  b1 = 3 ∷ [];
  a2 = 1 ∷ [];
  b2 = 1 ∷ [];
}

yes_zkp_created : create_one_in_two_zkp_yes small_curve one one one one one one ≡ some yes_zkp
unfolding create_one_in_two_zkp_yes hash_to_scalar convert_vec_to_scalar new_one_in_two_zkp
yes_zkp_created = refl

abbrev no_zkp : OneInTwoZkp
no_zkp = record {
  r1 = 3 ∷ [];
  r2 = 1 ∷ [];
  d1 = 3 ∷ [];
  d2 = 1 ∷ [];
  x = 1 ∷ [];
  y = 4 ∷ [];
  a1 = 1 ∷ [];
  b1 = 4 ∷ [];
  a2 = 2 ∷ [];
  b2 = 2 ∷ [];
}

no_zkp_created : create_one_in_two_zkp_no small_curve one one one one four one ≡ some no_zkp
unfolding create_one_in_two_zkp_no hash_to_scalar convert_vec_to_scalar new_one_in_two_zkp
no_zkp_created = refl

abbrev registration_of : RegisterMessage
registration_of = record {
  voting_key = 1 ∷ [];
  voting_key_zkp = key_zkp;
  merkle_proof = record { proof = []; leaf = 4 ∷ []; index = 0 };
}

abbrev commitment_of : ℕ → CommitMessage
commitment_of key = record { reconstructed_key = key ∷ []; commitment = 4 ∷ [] }

abbrev registrations : List (ReceiveContext × Amount × Call)
registrations =
    (by 1 0, 10, register_call (some registration_of))
    ∷ (by 1 1, 10, register_call (some registration_of))
    ∷ (by 2 2, 9, register_call (some registration_of))
    ∷ (by 2 3, 10, register_call (some registration_of))
    ∷ []

abbrev commitments : List (ReceiveContext × Amount × Call)
commitments =
    (by 1 4, 0, commit_call (some (commitment_of 4)))
    ∷ (by 3 5, 0, commit_call (some (commitment_of 4)))
    ∷ (by 2 6, 0, commit_call (some (commitment_of 1)))
    ∷ []

abbrev no_vote : VoteMessage
no_vote = record { vote = 4 ∷ []; vote_zkp = no_zkp }

abbrev yes_vote : VoteMessage
yes_vote = record { vote = 2 ∷ []; vote_zkp = yes_zkp }

abbrev votes : List (ReceiveContext × Amount × Call)
votes =
    (by 1 7, 0, vote_call (some no_vote))
    ∷ (by 1 8, 0, vote_call (some no_vote))
    ∷ (by 2 9, 0, vote_call (some yes_vote))
    ∷ (by 5 10, 0, result_call 5)
    ∷ []

abbrev registered : Voter
registered = record default_voter { voting_key = 1 ∷ []; voting_key_zkp = key_zkp }

abbrev after_registrations : Election small_curve ledger_host
after_registrations = record {
  state = record start.state {
    voting_phase = VotingPhase.commit;
    voters = (1, registered) ∷ (2, registered) ∷ [];
  };
  chain = record { balance = 20; paid = [] };
}

abbrev committed : ℕ → Voter
committed key = record registered { reconstructed_key = key ∷ []; commitment = 4 ∷ [] }

abbrev after_commitments : Election small_curve ledger_host
after_commitments = record {
  state = record start.state {
    voting_phase = VotingPhase.vote;
    voters = (1, committed 4) ∷ (2, committed 1) ∷ [];
  };
  chain = record { balance = 20; paid = [] };
}

abbrev voted : ℕ → VoteMessage → Voter
voted key m = record (committed key) { vote = m.vote; vote_zkp = m.vote_zkp }

abbrev after_votes : Election small_curve ledger_host
after_votes = record {
  state = record start.state {
    voting_phase = VotingPhase.result;
    voting_result = (1, 1);
    voters = (1, voted 4 no_vote) ∷ (2, voted 1 yes_vote) ∷ [];
  };
  chain = record { balance = 0; paid = (1, 10) ∷ (2, 10) ∷ [] };
}

run-registrations : run small_curve ledger_host registrations start ≡ after_registrations
unfolding run transact register enter_key verify_merkle_proof verify_schnorr_zkp extract_primitives
    convert_vec_to_scalar convert_vec_to_point hash_to_scalar
run-registrations = refl

run-commitments : run small_curve ledger_host commitments after_registrations ≡ after_commitments
unfolding run transact commit
run-commitments = refl

run-votes : run small_curve ledger_host votes after_commitments ≡ after_votes
unfolding run transact vote verify_one_in_two_zkp extract_scalars extract_points check_commitment
    convert_vec_to_scalar convert_vec_to_point hash_to_scalar result vote_points brute_force_tally
    sum_votes count_up pay
run-votes = refl

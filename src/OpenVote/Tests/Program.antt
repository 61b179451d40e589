-- ===== src/OpenVote/Tests/Program.antt =====
-- The test election of open-vote-network/off-chain/src/main.rs, for two voters modulo 5.
use bachelor_project.Prelude.{
  ℕ, zero, suc, ◌<◌, ◌≡◌, ◌≢◌, refl, ap, true, Option, none, some, List, [], ◌∷◌, length, arith,
}
use bachelor_project.Contract.{ok}
use bachelor_project.Contract.Ledger.{ledger_host, ledger_host-HostLaws}
use bachelor_project.OpenVote.SmallCurve.{
  Residue, number, one, two, small_curve, small_curve-CurveLaws,
}
use bachelor_project.OpenVote.Merkle.{MerkleTrees, MerkleLaws}
use bachelor_project.OpenVote.Curve.{Bytes}
use bachelor_project.OpenVote.Util.{
  convert_vec_to_scalar, convert_vec_to_point, hash_to_scalar, extract_scalars, extract_points,
  extract_primitives, new_one_in_two_zkp, new_schnorr_proof, MerkleProof,
}
use bachelor_project.OpenVote.Types.{
  i32, RegisterMessage, CommitMessage, VoteMessage, VoteConfig, VotingState, VotingPhase, minus_one,
}
use bachelor_project.OpenVote.Crypto.{verify_merkle_proof}
use bachelor_project.OpenVote.Crypto.Tally.{multiple}
use bachelor_project.OpenVote.Voting.{Election, setup, result}
use bachelor_project.OpenVote.Voting.History.{run}
use bachelor_project.OpenVote.Voting.Completing.Seats.{Seat}
use bachelor_project.OpenVote.Voting.Completing.Finishing.{election_calls}
use bachelor_project.OpenVote.OffChain.{
  create_votingkey_pair, create_schnorr_zkp, create_one_in_two_zkp_yes, commit_to_vote,
}
use bachelor_project.OpenVote.OffChain.Keys.{
  position, sum_keys, split_round, split_keys, compute_reconstructed_key,
}
use bachelor_project.OpenVote.OffChain.Election.{voting_keys, AllDiffer}
use bachelor_project.OpenVote.OffChain.Outcome.{yes_or_no}
use bachelor_project.OpenVote.OffChain.Membership.{
  leaves_of, position_of, create_merkle_tree, create_merkle_proof, create_merkle_proof-verify,
}
use bachelor_project.OpenVote.OffChain.Program.{
  make_voteconfig, make_register_msg, commit_rounds, make_vote_msg, main,
}
use bachelor_project.OpenVote.OffChain.Program.Elected.{seats_of, AllReadable, all_yes}
use bachelor_project.OpenVote.OffChain.Program.Rounds.{secrets_of}
use bachelor_project.OpenVote.OffChain.Program.TestElection.{result-main}
use bachelor_project.OpenVote.Tests.{start}

-- A tree that is its leaves, whose proofs are all accepted.
abbrev small_trees : MerkleTrees small_curve
small_trees = record {
  Tree = List Bytes;
  from_leaves = λ ls. ls;
  leaves = λ t. some t;
  leaves_len = λ t. length t;
  root = λ t. [];
  proof = λ t i. tt;
  proof_to_bytes = λ p. [];
}

small_trees-MerkleLaws : MerkleLaws small_curve small_trees
small_trees-MerkleLaws = record {
  leaves_kept = λ ls e. refl;
  leaves_counted = λ ls. refl;
  proof_round = λ p. refl;
  proof_verifies = λ ls i leaf e. refl;
}

create_merkle_proof-verify_example :
    let tree = create_merkle_tree small_curve small_trees (1 ∷ 2 ∷ []) in
    (proof : MerkleProof) × (create_merkle_proof small_curve small_trees 2 tree ≡ some proof)
    × (verify_merkle_proof small_curve [] (i32 (small_trees.leaves_len tree)) proof 2 ≡ some true)
create_merkle_proof-verify_example =
    create_merkle_proof-verify small_curve small_trees small_trees-MerkleLaws (1 ∷ 2 ∷ []) 1 2 refl
      (omega arith)

-- Two voters, accounts 1 and 2, with secrets 1 and 2.
abbrev draws : List (Residue × Residue)
draws = (one, two) ∷ (two, two) ∷ []

abbrev vote_draws : List (Residue × Residue × Residue)
vote_draws = (one, one, one) ∷ (two, one, one) ∷ []

abbrev membership : MerkleProof
membership = record { proof = []; leaf = 4 ∷ []; index = 0 }

abbrev pub first_seat : Seat
first_seat = record {
  voter = 1;
  registering = record {
    voting_key = 1 ∷ [];
    voting_key_zkp = record { g_w = 2 ∷ []; r = 3 ∷ [] };
    merkle_proof = membership;
  };
  committing = record { reconstructed_key = 3 ∷ []; commitment = 4 ∷ [] };
  voting = record {
    vote = 4 ∷ [];
    vote_zkp = record {
      r1 = 1 ∷ [];
      r2 = 3 ∷ [];
      d1 = 1 ∷ [];
      d2 = 3 ∷ [];
      x = 1 ∷ [];
      y = 4 ∷ [];
      a1 = 2 ∷ [];
      b1 = 2 ∷ [];
      a2 = 1 ∷ [];
      b2 = 3 ∷ [];
    };
  };
}

abbrev pub second_seat : Seat
second_seat = record {
  voter = 2;
  registering = record {
    voting_key = 2 ∷ [];
    voting_key_zkp = record { g_w = 2 ∷ []; r = 4 ∷ [] };
    merkle_proof = membership;
  };
  committing = record { reconstructed_key = 1 ∷ []; commitment = 4 ∷ [] };
  voting = record {
    vote = 3 ∷ [];
    vote_zkp = record {
      r1 = 1 ∷ [];
      r2 = 1 ∷ [];
      d1 = 1 ∷ [];
      d2 = 3 ∷ [];
      x = 2 ∷ [];
      y = 3 ∷ [];
      a1 = 3 ∷ [];
      b1 = 4 ∷ [];
      a2 = 2 ∷ [];
      b2 = 2 ∷ [];
    };
  };
}

abbrev pub registers : List RegisterMessage
registers = first_seat.registering ∷ second_seat.registering ∷ []

abbrev pub commits : List CommitMessage
commits = first_seat.committing ∷ second_seat.committing ∷ []

abbrev pub votes : List VoteMessage
votes = first_seat.voting ∷ second_seat.voting ∷ []

main-ran :
    main small_curve small_trees (1 ∷ 2 ∷ []) draws vote_draws ≡ some (registers, commits, votes)
unfolding main make_register_msg commit_rounds make_vote_msg create_merkle_tree create_merkle_proof
    leaves_of position_of create_votingkey_pair create_schnorr_zkp create_one_in_two_zkp_yes
    commit_to_vote hash_to_scalar convert_vec_to_scalar new_schnorr_proof new_one_in_two_zkp
    position sum_keys split_round split_keys compute_reconstructed_key
main-ran = refl

read_some : {A : Type 0} {o : Option A} {a : A} → o ≡ some a → o ≢ none
read_some e n = ground (arith, e, n)

messages-AllReadable : AllReadable small_curve (seats_of (1 ∷ 2 ∷ []) registers commits votes)
unfolding extract_primitives extract_scalars extract_points convert_vec_to_point
    convert_vec_to_scalar
messages-AllReadable = (
  (
    read_some refl,
    read_some refl,
    read_some refl,
    read_some refl,
    (read_some refl, read_some refl),
  ),
  (
    (
      read_some refl,
      read_some refl,
      read_some refl,
      read_some refl,
      (read_some refl, read_some refl),
    ),
    tt,
  ),
)

one_is_not_two : (a b : Residue) → number a ≡ 1 → number b ≡ 2 → a ≢ b
one_is_not_two a b p q e = ground (arith, ap number e, p, q)

keys-AllDiffer : AllDiffer small_curve (
    voting_keys small_curve
      (yes_or_no small_curve (all_yes small_curve (secrets_of small_curve draws))))
unfolding voting_keys
keys-AllDiffer = ((one_is_not_two one two refl refl, tt), (tt, tt))

fewer_differ : (j : ℕ) → j < 2 → multiple small_curve j ≢ multiple small_curve 2
unfolding multiple
fewer_differ zero below e = ground (arith, ap number e)
fewer_differ (suc zero) below e = ground (arith, ap number e)
fewer_differ (suc (suc j)) below e = absurd (omega (arith, below))

abbrev announced : VoteConfig
announced = make_voteconfig small_curve small_trees (1 ∷ 2 ∷ [])

abbrev announced_state : VotingState
announced_state = record {
  config = announced;
  voting_phase = VotingPhase.registration;
  voting_result = (minus_one, minus_one);
  voters = [];
}

announced-set_up : setup 0 (some announced) ≡ ok announced_state
unfolding setup
announced-set_up = refl

abbrev test_election : Election small_curve ledger_host
test_election =
    run small_curve ledger_host
      (election_calls 9 announced.deposit (λ s. 50) (λ s. 150) (λ s. 250)
        (seats_of (1 ∷ 2 ∷ []) registers commits votes))
      (record { state = announced_state; chain = start.chain })

result-main_example : result small_curve ledger_host 3 test_election ≡ (
  ok (2, 0),
  record test_election { state = record test_election.state { voting_result = (2, 0) } },
)
result-main_example =
    result-main small_curve small_curve-CurveLaws small_trees small_trees-MerkleLaws ledger_host
      ledger_host-HostLaws (λ bytes. refl) (λ a. refl) 9 (λ s. 50) (λ s. 150) (λ s. 250)
      (1 ∷ 2 ∷ []) 0 start.chain 3 draws vote_draws main-ran announced-set_up refl (omega arith)
      (omega arith) messages-AllReadable ((refl, tt), (tt, tt)) keys-AllDiffer (λ s. omega arith)
      (λ s. omega arith) (λ s. omega arith) fewer_differ (omega arith)

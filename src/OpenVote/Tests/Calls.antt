-- ===== src/OpenVote/Tests/Calls.antt =====
-- Calls of open-vote-network/voting in the election of the tests.
use bachelor_project.Prelude.{◌⊎◌, ◌<◌, ◌≡◌, ◌≢◌, refl, some, List, [], ◌∷◌, ◌++◌, arith}
use bachelor_project.Contract.{Amount, ReceiveContext, ok}
use bachelor_project.Contract.Ledger.{ledger_host, ledger_host-HostLaws, pay}
use bachelor_project.OpenVote.SmallCurve.{two, four, small_curve, small_curve-CurveLaws}
use bachelor_project.OpenVote.Util.{
  convert_vec_to_scalar, convert_vec_to_point, hash_to_scalar, extract_scalars, extract_points,
  extract_primitives,
}
use bachelor_project.OpenVote.Crypto.{
  verify_schnorr_zkp, verify_one_in_two_zkp, check_commitment, sum_votes, count_up,
  brute_force_tally, verify_merkle_proof,
}
use bachelor_project.OpenVote.Types.{VotingPhase}
use bachelor_project.OpenVote.Voting.{
  Election, setup, register, enter_key, commit, vote, vote_points, result,
}
use bachelor_project.OpenVote.Voting.Phases.{change_phase}
use bachelor_project.OpenVote.Voting.History.{Call, transact, run}
use bachelor_project.OpenVote.Crypto.Tally.{IsLeast, brute_force_tally_iff}
use bachelor_project.OpenVote.Voting.Accepted.{Registers, register-Registers}
use bachelor_project.OpenVote.Voting.Accepted.Ballots.{Commits, commit-Commits, Votes, vote-Votes}
use bachelor_project.OpenVote.Voting.Aborting.{change_phase_aborts, change_phase_underfunded}
use bachelor_project.OpenVote.Voting.Integrity.{IsSound, run-Sound}
use bachelor_project.OpenVote.Voting.Ending.{callers, run-ends}
use bachelor_project.OpenVote.Voting.Persistence.{Registered, run-Registered, Rests, run-Rests}
use bachelor_project.OpenVote.Voting.Starting.{setup-IsSound}
use bachelor_project.OpenVote.Voting.Outcomes.{result_counts}
use bachelor_project.OpenVote.Tests.{
  config, by, start, registration_of, commitment_of, registrations, commitments, no_vote, votes,
  registered, after_registrations, committed, after_commitments, voted, after_votes,
}

run-Sound_example : IsSound small_curve (run small_curve ledger_host registrations start).state
run-Sound_example = run-Sound small_curve ledger_host ledger_host-HostLaws registrations start tt

run-Registered_example :
    Registered 1 registered (run small_curve ledger_host commitments after_registrations).state
run-Registered_example =
    run-Registered small_curve ledger_host ledger_host-HostLaws 1 registered commitments
      after_registrations refl

run-Rests_example :
    Rests small_curve ledger_host VotingPhase.result after_votes.state.voters
      (run small_curve ledger_host votes after_votes).state
run-Rests_example = run-Rests small_curve ledger_host ledger_host-HostLaws votes after_votes refl

-- Nobody has committed in time, so account 9 is paid 10 for calling.
change_phase_aborts_example :
    ((change_phase small_curve ledger_host (by 9 201) after_registrations).0 ≡ ok tt)
    × ((change_phase small_curve ledger_host (by 9 201) after_registrations).1.state.voting_phase
        ≡ VotingPhase.abort)
change_phase_aborts_example =
    change_phase_aborts small_curve ledger_host ledger_host-HostLaws (by 9 201) after_registrations
      9 refl refl (omega arith) refl refl (refl, tt) (omega arith)

-- Account 1 has voted and has been paid back, account 2 is late.
abbrev one_voted : Election small_curve ledger_host
one_voted = record {
  state = record after_commitments.state { voters = (1, voted 4 no_vote) ∷ (2, committed 1) ∷ [] };
  chain = record { balance = 10; paid = (1, 10) ∷ [] };
}

change_phase_underfunded_example :
    (change_phase small_curve ledger_host (by 9 301) one_voted).0 ≢ ok tt
change_phase_underfunded_example =
    change_phase_underfunded small_curve ledger_host ledger_host-HostLaws (by 9 301) one_voted 9
      refl refl (omega arith) refl refl (omega arith)

register-Registers_example :
    Registers small_curve ledger_host
      (by 1 0)
      (some registration_of)
      10
      start
      (register small_curve ledger_host (by 1 0) (some registration_of) 10 start).1
unfolding register enter_key verify_merkle_proof verify_schnorr_zkp extract_primitives
    convert_vec_to_scalar convert_vec_to_point hash_to_scalar
register-Registers_example =
    register-Registers small_curve ledger_host (by 1 0) start (some registration_of) 10 refl

commit-Commits_example :
    Commits small_curve ledger_host
      (by 1 4)
      (some (commitment_of 4))
      after_registrations
      (commit small_curve ledger_host (by 1 4) (some (commitment_of 4)) after_registrations).1
unfolding commit
commit-Commits_example =
    commit-Commits small_curve ledger_host (by 1 4) after_registrations (some (commitment_of 4))
      refl

vote-Votes_example :
    Votes small_curve ledger_host
      (by 1 7)
      (some no_vote)
      after_commitments
      (vote small_curve ledger_host (by 1 7) (some no_vote) after_commitments).1
unfolding vote verify_one_in_two_zkp extract_scalars extract_points check_commitment
    convert_vec_to_scalar convert_vec_to_point hash_to_scalar pay
vote-Votes_example =
    vote-Votes small_curve ledger_host (by 1 7) after_commitments (some no_vote) refl

abbrev whole_election : List (ReceiveContext × Amount × Call)
whole_election = registrations ++ commitments ++ votes

whole_election-result :
    (run small_curve ledger_host whole_election start).state.voting_phase ≡ VotingPhase.result
unfolding run transact register enter_key verify_merkle_proof verify_schnorr_zkp extract_primitives
    commit vote verify_one_in_two_zkp extract_scalars extract_points check_commitment
    convert_vec_to_scalar convert_vec_to_point hash_to_scalar result vote_points brute_force_tally
    sum_votes count_up pay
whole_election-result = refl

tally_IsLeast : IsLeast small_curve 0 (sum_votes small_curve four (two ∷ [])) 1
unfolding brute_force_tally sum_votes count_up
tally_IsLeast =
    ((brute_force_tally_iff small_curve small_curve-CurveLaws 5 1 four (two ∷ [])).0 refl).0

result_counts_example : result small_curve ledger_host 5 after_votes ≡ (
  ok (1, 1),
  record after_votes { state = record after_votes.state { voting_result = (1, 1) } },
)
unfolding vote_points convert_vec_to_point
result_counts_example =
    result_counts small_curve ledger_host small_curve-CurveLaws 5 1 after_votes refl refl
      tally_IsLeast (omega arith)

setup-IsSound_example :
    (50 < 100)
    × (100 < 200)
    × (200 < 300)
    × (VotingPhase.registration ≡ VotingPhase.registration)
    × IsSound small_curve start.state
unfolding setup
setup-IsSound_example = setup-IsSound small_curve 50 (some config) {s = start.state} refl

run-ends_example :
    let v = run small_curve ledger_host (callers 9 500 (7 ∷ 8 ∷ 7 ∷ [])) after_registrations in
    (v.state.voting_phase ≡ VotingPhase.result) ⊎ (v.state.voting_phase ≡ VotingPhase.abort)
run-ends_example =
    run-ends small_curve ledger_host ledger_host-HostLaws (λ a. refl) 9 500 (7 ∷ 8 ∷ 7 ∷ [])
      after_registrations
      (record {
        registered_by = omega arith;
        committed_by = omega arith;
        voted_by = omega arith;
        funded = omega arith;
      })
      (omega arith)

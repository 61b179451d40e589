-- ===== src/OpenVote/Tests/Completing.antt =====
-- The calls that the two voters of the test election make to open-vote-network/voting/src/lib.rs.
use bachelor_project.Prelude.{◌≡◌, refl, some, [], ◌∷◌, arith}
use bachelor_project.Contract.{ok}
use bachelor_project.Contract.Ledger.{ledger_host, ledger_host-HostLaws}
use bachelor_project.OpenVote.SmallCurve.{one, two, three, four, small_curve, small_curve-CurveLaws}
use bachelor_project.OpenVote.Util.{
  convert_vec_to_scalar, convert_vec_to_point, hash_to_scalar, extract_scalars, extract_points,
  extract_primitives,
}
use bachelor_project.OpenVote.Crypto.{
  verify_merkle_proof, verify_schnorr_zkp, verify_one_in_two_zkp, check_commitment,
}
use bachelor_project.OpenVote.Voting.{Election, setup}
use bachelor_project.OpenVote.Voting.History.{run}
use bachelor_project.OpenVote.Voting.Completing.Seats.{AllPass, none_left, one_more}
use bachelor_project.OpenVote.Voting.Completing.Finishing.{election_calls, Completes, run-Completes}
use bachelor_project.OpenVote.OffChain.Program.Elected.{seats_of}
use bachelor_project.OpenVote.Tests.{config, start}
use bachelor_project.OpenVote.Tests.Program.{first_seat, second_seat, registers, commits, votes}

setup_succeeds : setup 0 (some config) ≡ ok start.state
unfolding setup
setup_succeeds = refl

abbrev after_votes : Election small_curve ledger_host
after_votes =
    run small_curve ledger_host
      (election_calls 9 10 (λ s. 50) (λ s. 150) (λ s. 250)
        (seats_of (1 ∷ 2 ∷ []) registers commits votes))
      start

election_passes :
    AllPass small_curve ledger_host config
      (seats_of (1 ∷ 2 ∷ []) registers commits votes)
      (four ∷ three ∷ [])
unfolding verify_merkle_proof verify_schnorr_zkp verify_one_in_two_zkp check_commitment
    hash_to_scalar extract_primitives extract_scalars extract_points convert_vec_to_point
    convert_vec_to_scalar
election_passes =
    one_more
      (record {
        key = one;
        g_y = three;
        authorized = refl;
        key_read = refl;
        key_proved = refl;
        given = refl;
        key_reconstructed = refl;
        vote_proved = refl;
        vote_read = refl;
        committed = refl;
        known = refl;
      })
      (one_more
        (record {
          key = two;
          g_y = one;
          authorized = refl;
          key_read = refl;
          key_proved = refl;
          given = refl;
          key_reconstructed = refl;
          vote_proved = refl;
          vote_read = refl;
          committed = refl;
          known = refl;
        })
        none_left)

run-Completes_example :
    Completes small_curve small_curve-CurveLaws ledger_host ledger_host-HostLaws config 9
      (λ s. 50)
      (λ s. 150)
      (λ s. 250)
      (four ∷ three ∷ [])
      after_votes
run-Completes_example =
    run-Completes small_curve small_curve-CurveLaws ledger_host ledger_host-HostLaws config 9
      (λ s. 50) (λ s. 150) (λ s. 250) 0 start.chain first_seat (second_seat ∷ [])
      (four ∷ three ∷ []) setup_succeeds election_passes ((refl, tt), (tt, tt)) refl (omega arith)
      (λ s. omega arith) (λ s. omega arith) (λ s. omega arith)

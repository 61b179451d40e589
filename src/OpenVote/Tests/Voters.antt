-- ===== src/OpenVote/Tests/Voters.antt =====
-- What the voters of open-vote-network/off-chain compute, modulo 5.
use bachelor_project.Prelude.{
  Bool, false, Option, ap, sym, ◌∙◌, ℕ, ◌<◌, ◌≡◌, ◌≢◌, refl, true, some, List, [], ◌∷◌, arith,
}
use bachelor_project.OpenVote.SmallCurve.{
  Residue, number, one, two, three, four, small_curve, small_curve-CurveLaws,
}
use bachelor_project.OpenVote.Util.{
  convert_vec_to_scalar, convert_vec_to_point, extract_scalars, extract_points, extract_primitives,
}
use bachelor_project.OpenVote.Crypto.{verify_schnorr_zkp, verify_one_in_two_zkp, brute_force_tally}
use bachelor_project.OpenVote.Crypto.Tally.{multiple}
use bachelor_project.OpenVote.OffChain.Keys.{
  position, sum_keys, split_round, split_keys, compute_reconstructed_key,
}
use bachelor_project.OpenVote.OffChain.Election.{voting_keys, cast_all, AllDiffer}
use bachelor_project.OpenVote.OffChain.Outcome.{yes_or_no, brute_force_tally-cast_all}
use bachelor_project.OpenVote.OffChain.Proofs.{
  create_schnorr_zkp-verify, create_one_in_two_zkp_yes-verify, create_one_in_two_zkp_no-verify,
}
use bachelor_project.OpenVote.Tests.{
  key_zkp, key_zkp_created, yes_zkp, yes_zkp_created, no_zkp, no_zkp_created,
}

create_schnorr_zkp-verify_example : verify_schnorr_zkp small_curve one key_zkp ≡ some true
unfolding extract_primitives convert_vec_to_point convert_vec_to_scalar
create_schnorr_zkp-verify_example =
    create_schnorr_zkp-verify small_curve small_curve-CurveLaws two one key_zkp key_zkp_created
      (λ e. ground (arith, e))

create_one_in_two_zkp_yes-verify_example : verify_one_in_two_zkp small_curve yes_zkp one ≡ some true
unfolding extract_scalars extract_points convert_vec_to_point convert_vec_to_scalar
create_one_in_two_zkp_yes-verify_example =
    create_one_in_two_zkp_yes-verify small_curve small_curve-CurveLaws one one one one one yes_zkp
      yes_zkp_created (λ e. ground (arith, e), λ e. ground (arith, e))

create_one_in_two_zkp_no-verify_example : verify_one_in_two_zkp small_curve no_zkp four ≡ some true
unfolding extract_scalars extract_points convert_vec_to_point convert_vec_to_scalar
create_one_in_two_zkp_no-verify_example =
    create_one_in_two_zkp_no-verify small_curve small_curve-CurveLaws one one one one four no_zkp
      no_zkp_created (λ e. ground (arith, e), λ e. ground (arith, e))

-- The first voter, of secret 1, says no, and the second, of secret 2, says yes.
abbrev honest : List (Residue × Bool)
honest = (one, false) ∷ (two, true) ∷ []

abbrev honest_votes : Option (List Residue)
honest_votes =
    cast_all small_curve (voting_keys small_curve (yes_or_no small_curve honest))
      (yes_or_no small_curve honest)

honest_votes-cast : honest_votes ≡ some (three ∷ three ∷ [])
unfolding cast_all voting_keys compute_reconstructed_key position sum_keys split_keys split_round
honest_votes-cast = refl

one_is_not_two : (a b : Residue) → number a ≡ 1 → number b ≡ 2 → a ≢ b
one_is_not_two a b p q e = ground (arith, ap number e, p, q)

honest_differ : AllDiffer small_curve (voting_keys small_curve (yes_or_no small_curve honest))
unfolding voting_keys
honest_differ = ((one_is_not_two one two refl refl, tt), (tt, tt))

zero_is_not_one : (j : ℕ) → j < 1 → multiple small_curve j ≢ multiple small_curve 1
unfolding multiple
zero_is_not_one j below e =
    let at : j ≡ 0 = omega (arith, below) in
    ground (arith, ap number (ap (multiple small_curve) (sym at) ∙ e))

brute_force_tally-cast_all_example :
    (points : List Residue) × (honest_votes ≡ some points)
    × (brute_force_tally small_curve 2 points ≡ some 1)
unfolding voting_keys multiple
brute_force_tally-cast_all_example =
    brute_force_tally-cast_all small_curve small_curve-CurveLaws 2 honest honest_differ
      (omega arith) zero_is_not_one (omega arith)

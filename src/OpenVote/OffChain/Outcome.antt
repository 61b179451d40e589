-- ===== src/OpenVote/OffChain/Outcome.antt =====
-- open-vote-network/off-chain/src/lib.rs with voting/src/crypto.rs: the tally of an election of honest
-- voters.
use bachelor_project.Prelude.{
  ℕ, suc, ◌≤◌, ◌<◌, ◌≡◌, ◌≢◌, refl, sym, ap, ◌∙◌, Bool, true, false, some, List, [], ◌∷◌, length,
  arith, Option-cases, inl, inr,
}
use bachelor_project.OpenVote.Curve.{Curve, CurveLaws}
use bachelor_project.OpenVote.Crypto.{brute_force_tally}
use bachelor_project.OpenVote.Crypto.Tally.{multiple, brute_force_tally_iff}
use bachelor_project.OpenVote.OffChain.Keys.{compute_reconstructed_key}
use bachelor_project.OpenVote.OffChain.Reconstruction.{total, sum_votes-total}
use bachelor_project.OpenVote.OffChain.Election.{
  HonestVoter, voting_keys, choices, cast_all, AllDiffer, cast_all-total,
}

module _ (c : Curve) where
  -- A yes is the generator, a no the identity.
  abbrev pub choice_point : Bool → c.Point
  choice_point true = c.generator
  choice_point false = c.identity

  abbrev pub yes_or_no : List (c.Scalar × Bool) → List (HonestVoter c)
  yes_or_no [] = []
  yes_or_no ((x, says) ∷ voters) = (x, choice_point says) ∷ yes_or_no voters

  abbrev pub yes_count : List (c.Scalar × Bool) → ℕ
  yes_count [] = 0
  yes_count ((x, true) ∷ voters) = suc (yes_count voters)
  yes_count ((x, false) ∷ voters) = yes_count voters

module _ (c : Curve) (laws : CurveLaws c) where
  pub total-choices :
      (voters : List (c.Scalar × Bool))
      → total c (choices c (yes_or_no c voters)) ≡ multiple c (yes_count c voters)
  unfolding total choices multiple
  total-choices [] = refl
  total-choices ((x, true) ∷ voters) =
      ap (c.add c.generator) (total-choices voters)
      ∙ laws.add_comm c.generator (multiple c (yes_count c voters))
  total-choices ((x, false) ∷ voters) =
      ap (c.add c.identity) (total-choices voters)
      ∙ laws.add_comm c.identity (multiple c (yes_count c voters))
      ∙ laws.add-identity (multiple c (yes_count c voters))

  pub some_vote :
      (keys : List c.Point) (voters : List (HonestVoter c)) (votes : List c.Point)
      → 2 ≤ length (voting_keys c voters)
      → cast_all c keys voters ≡ some votes
      → votes ≢ []
  unfolding cast_all voting_keys
  some_vote keys [] votes many cast none_cast = absurd (omega (arith, many))
  some_vote keys (v ∷ voters) votes many cast none_cast =
      elim (Option-cases (compute_reconstructed_key c keys (c.scale c.generator v.0))) [
        | inl stuck ↦ ground (arith, cast)
        | inr (g_y, found) ↦ elim (Option-cases (cast_all c keys voters)) [
          | inl stuck ↦ ground (arith, cast)
          | inr (rest, others) ↦ ground (arith, cast, none_cast)
        ]
      ]

  pub tally_of :
      (fuel : ℕ) (votes : List c.Point) (k : ℕ)
      → votes ≢ []
      → total c votes ≡ multiple c k
      → ((j : ℕ) → j < k → multiple c j ≢ multiple c k)
      → k < fuel
      → brute_force_tally c fuel votes ≡ some k
  unfolding total
  tally_of fuel [] k cast sum apart room = absurd (cast refl)
  tally_of fuel (v ∷ votes) k cast sum apart room =
      let tally = sum_votes-total c laws v votes ∙ sum in
      (brute_force_tally_iff c laws fuel k v votes).1 (
        record {
          bound = omega arith;
          meets = sym tally;
          least = λ j from below same. apart j below (same ∙ tally);
        },
        room,
      )

  -- Two voters or more, whose voting keys differ and who each say yes or no, all reconstruct a key and
  -- cast a vote, and the tally of the votes is the number of those who said yes, if no smaller
  -- number of generators makes the same point and the fuel exceeds it.
  pub brute_force_tally-cast_all :
      (fuel : ℕ) (voters : List (c.Scalar × Bool))
      → AllDiffer c (voting_keys c (yes_or_no c voters))
      → 2 ≤ length (voting_keys c (yes_or_no c voters))
      → ((j : ℕ) → j < yes_count c voters → multiple c j ≢ multiple c (yes_count c voters))
      → yes_count c voters < fuel
      → (votes : List c.Point) × (cast_all c
            (voting_keys c (yes_or_no c voters))
            (yes_or_no c voters)
          ≡ some votes)
        × (brute_force_tally c fuel votes ≡ some (yes_count c voters))
  brute_force_tally-cast_all fuel voters differ many apart room =
      let all = yes_or_no c voters in
      let (votes, cast, sum) = cast_all-total c laws all differ many in
      (
        votes,
        cast,
        tally_of fuel votes (yes_count c voters) (some_vote (voting_keys c all) all votes many cast)
            (sum ∙ total-choices voters) apart room,
      )

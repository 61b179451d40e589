-- ===== src/OpenVote/Crypto/Tally.antt =====
-- open-vote-network/voting/src/crypto.rs: what the brute-force search of the tally finds.
use bachelor_project.Prelude.{
  ℕ, zero, suc, ◌+◌, ◌≤◌, ◌<◌, ◌≡◌, ◌≢◌, ◌↔◌, ap, sym, ◌∙◌, inl, inr, true, false, some, List, ◌∷◌,
  ◌==◌, Bool-cases, arith,
}
use bachelor_project.OpenVote.Curve.{Curve, CurveLaws}
use bachelor_project.OpenVote.Crypto.{sum_votes, count_up, brute_force_tally}

-- The generator added to the identity `n` times, as the search does it.
unfoldable pub multiple : (c : Curve) → ℕ → c.Point
multiple c zero = c.identity
multiple c (suc n) = c.add (multiple c n) c.generator

-- `k` is the least number from `i` on whose multiple is the tally.
pub record IsLeast (c : Curve) (i : ℕ) (tally : c.Point) (k : ℕ) : Type 0 where
  pub bound : i ≤ k
  pub meets : multiple c k ≡ tally
  pub least : (j : ℕ) → i ≤ j → j < k → multiple c j ≢ tally

eq_sound : (i j : ℕ) → (i == j) ≡ true → i ≡ j
eq_sound i j e = ground arith

module _ (c : Curve) (laws : CurveLaws c) (tally : c.Point) where
  -- Where the test fails, the points differ.
  differs : (i : ℕ) → c.same_point (multiple c i) tally ≡ false → multiple c i ≢ tally
  differs i other m = ground (arith, (laws.same_point_iff (multiple c i) tally).1 m)

  i_ne : (i k : ℕ) → c.same_point (multiple c i) tally ≡ false → multiple c k ≡ tally → i ≢ k
  i_ne i k other meets same = differs i other (ap (multiple c) same ∙ meets)

  count_up-IsLeast :
      (fuel i k : ℕ) → count_up c fuel tally (multiple c i) i ≡ some k → IsLeast c i tally k
  unfolding count_up multiple
  count_up-IsLeast zero i k e = ground arith
  count_up-IsLeast (suc fuel) i k e = elim (Bool-cases (c.same_point (multiple c i) tally)) [
    | inl same ↦
        let here : i ≡ k = ground arith in
        record {
          bound = omega (arith, here);
          meets = ap (multiple c) (sym here) ∙ (laws.same_point_iff (multiple c i) tally).0 same;
          least = λ j a b m. absurd (omega (arith, here, a, b));
        }
    | inr other ↦
        let rest = count_up-IsLeast fuel (suc i) k (rw (other, count_up) at e) in
        record {
          bound = omega (arith, rest.bound);
          meets = rest.meets;
          least = λ j a b m. elim (Bool-cases (i == j)) [
            | inl here ↦ differs i other (rw (eq_sound i j here) m)
            | inr there ↦ rest.least j (ground arith) b m
          ];
        }
  ]

  count_up_stops : (fuel i k : ℕ) → count_up c fuel tally (multiple c i) i ≡ some k → k < i + fuel
  unfolding count_up multiple
  count_up_stops zero i k e = ground arith
  count_up_stops (suc fuel) i k e = elim (Bool-cases (c.same_point (multiple c i) tally)) [
    | inl same ↦ ground arith
    | inr other ↦ omega (arith, count_up_stops fuel (suc i) k (rw (other, count_up) at e))
  ]

  count_up_finds :
      (fuel i k : ℕ)
      → IsLeast c i tally k
      → k < i + fuel
      → count_up c fuel tally (multiple c i) i ≡ some k
  unfolding count_up multiple
  count_up_finds zero i k least room = absurd (omega (arith, least.bound, room))
  count_up_finds (suc fuel) i k least room = elim (Bool-cases (c.same_point (multiple c i) tally)) [
    | inl same ↦
        let here : i ≡ k = elim (Bool-cases (i == k)) [
          | inl here ↦ eq_sound i k here
          | inr there ↦ absurd (
              least.least i (omega arith) (ground (arith, least.bound, there))
                ((laws.same_point_iff (multiple c i) tally).0 same))
        ] in
        rw (same, count_up) (ap (λ n. some n) here)
    | inr other ↦
        let there = i_ne i k other least.meets in
        rw (other, count_up)
          (count_up_finds fuel (suc i) k
            (record {
              bound = ground (arith, least.bound, there);
              meets = least.meets;
              least = λ j a b. least.least j (omega arith) b;
            })
            (omega arith))
  ]

pub brute_force_tally_iff :
    (c : Curve) (laws : CurveLaws c) (fuel k : ℕ) (v : c.Point) (votes : List c.Point)
    → (brute_force_tally c fuel (v ∷ votes) ≡ some k)
      ↔ (IsLeast c 0 (sum_votes c v votes) k × (k < fuel))
unfolding brute_force_tally multiple
brute_force_tally_iff c laws fuel k v votes =
    let tally = sum_votes c v votes in
    (
      λ e. (
        count_up-IsLeast c laws tally fuel 0 k e,
        omega (arith, count_up_stops c laws tally fuel 0 k e),
      ),
      λ found. count_up_finds c laws tally fuel 0 k found.0 (omega (arith, found.1)),
    )

-- ===== src/MultiAssert/Tests.antt =====
-- The assertions of `main` in Other/Multi_assert.rs.
use bachelor_project.Prelude.{ℕ, Bool, ◌≡◌, refl, some, List, [], ◌∷◌, ◌==◌}
use bachelor_project.MultiAssert.{new, add_assert, count_fails, run_asserts}
use bachelor_project.MultiAssert.Failures.{add_all}

abbrev same : ℕ → ℕ → Bool
same a b = a == b

abbrev pairs : List (ℕ × ℕ × ℕ)
pairs = (1, 2, 62) ∷ (1, 1, 63) ∷ (2, 2, 64) ∷ (2, 1, 65) ∷ []

run_asserts-pairs : (run_asserts ℕ (add_all ℕ same pairs (new ℕ))).1 ≡ some 2
unfolding run_asserts add_all add_assert count_fails new
run_asserts-pairs = refl

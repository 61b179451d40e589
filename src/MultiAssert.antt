-- ===== src/MultiAssert.antt =====
-- Other/Multi_assert.rs: assertions that are collected and then run together. What is printed is a
-- list of the assertions in question, and a panic is its number of failed assertions.
mod Tests
pub mod Failures
use bachelor_project.Prelude.{
  ℕ, zero, suc, Bool, true, false, Option, none, some, List, [], ◌∷◌, ◌++◌, length, ltb,
  if◌then◌else◌,
}

module _ (T : Type 0) where
  pub record Assert : Type 0 where
    pub left : T
    pub right : T
    pub result : Bool
    pub line : ℕ

  pub record MultiAssert : Type 0 where
    pub asserts : List Assert

  unfoldable pub new : MultiAssert
  new = record { asserts = [] }

  module _ (equal : T → T → Bool) where
    unfoldable pub add_assert : T → T → ℕ → MultiAssert → Bool × MultiAssert
    add_assert left right line self =
        let result = equal left right in
        (
          result,
          record {
            asserts =
                self.asserts
                ++ (record { left = left; right = right; result = result; line = line }) ∷ [];
          },
        )

  -- The loop of `run_asserts`: what it prints and how many it counts.
  unfoldable pub count_fails : List Assert → List Assert × ℕ
  count_fails [] = ([], 0)
  count_fails (a ∷ asserts) =
      let (printed, fails) = count_fails asserts in
      if a.result then (printed, fails) else (a ∷ printed, suc fails)

  unfoldable pub run_asserts : MultiAssert → List Assert × Option ℕ
  run_asserts self =
      let (printed, fails) = count_fails self.asserts in
      (printed, if ltb 0 fails then some fails else none)

  unfoldable pub show_asserts : MultiAssert → ℕ × List Assert
  show_asserts self = (length self.asserts, self.asserts)

-- ===== src/MultiAssert/Failures.antt =====
-- Other/Multi_assert.rs: when a run of the collected assertions panics.
use bachelor_project.Prelude.{ℕ, suc, Bool, List, [], ◌∷◌, if◌then◌else◌}
use bachelor_project.MultiAssert.{MultiAssert, add_assert}

module _ (T : Type 0) (equal : T → T → Bool) where
  -- The assertions one after the other, each with its line.
  unfoldable pub add_all : List (T × T × ℕ) → MultiAssert T → MultiAssert T
  add_all [] self = self
  add_all ((left, right, line) ∷ pairs) self =
      add_all pairs (add_assert T equal left right line self).1

  -- Of an independent description: how many of the pairs differ.
  unfoldable pub differing : List (T × T × ℕ) → ℕ
  differing [] = 0
  differing ((left, right, line) ∷ pairs) =
      let rest = differing pairs in if equal left right then rest else suc rest

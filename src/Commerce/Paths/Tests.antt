-- ===== src/Commerce/Paths/Tests.antt =====
-- The property tests of Commerce/src/lib.rs at drawn numbers, for vendor 1 and buyer 2.
use bachelor_project.Prelude.{ℕ, ◌≡◌, true, some, List, [], ◌∷◌, arith}
use bachelor_project.Commerce.Paths.{Choice, Funcs}
use bachelor_project.Commerce.Paths.Draws.{arbitrary_path, arbitrary_funcs}
use bachelor_project.Commerce.Paths.Check.{property_check}
use bachelor_project.Commerce.Paths.Checked.{property_check-passes}
use bachelor_project.Commerce.Paths.Random.{property_check2}
use bachelor_project.Commerce.Paths.RandomChecked.{property_check2-passes}

abbrev draws : List ℕ
draws = 3 ∷ 1 ∷ 5 ∷ 2 ∷ 18446744073709551614 ∷ []

property_check-passes_example :
    (path : List Choice) × (arbitrary_path draws ≡ some path)
    × (property_check 1 2 200 true path ≡ some true)
property_check-passes_example =
    property_check-passes 1 2 200 true draws (λ e. omega (arith, e)) (omega arith) (omega arith)

property_check2-passes_example :
    (funcs : List Funcs) × (arbitrary_funcs draws ≡ some funcs)
    × (property_check2 1 2 true true true funcs ≡ some true)
property_check2-passes_example = property_check2-passes 1 2 true true true draws

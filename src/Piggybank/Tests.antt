-- ===== src/Piggybank/Tests.antt =====
-- Runs of Piggybank/src/lib.rs.
use bachelor_project.Prelude.{ℕ, ◌≡◌, refl, List, [], ◌∷◌}
use bachelor_project.Contract.{ReceiveContext, account}
use bachelor_project.Piggybank.{intact, smashed, piggy_insert, piggy_smash}
use bachelor_project.Piggybank.History.{
  Bank, Call, insert, smash, transact, run, PaysOnce, whole, run-PaysOnce,
}

abbrev by : ℕ → ReceiveContext
by a = record { sender = account a; owner = 1; slot_time = 0 }

abbrev calls : List (ReceiveContext × Call)
calls = (by 2, insert 100) ∷ (by 2, smash) ∷ (by 1, insert 5) ∷ (by 1, smash) ∷ (by 1, smash) ∷ []

abbrev new : Bank
new = record { state = intact; balance = 0; paid = [] }

abbrev ended : Bank
ended = record { state = smashed; balance = 0; paid = (1, 105) ∷ [] }

run-calls : run calls new ≡ ended
unfolding run transact piggy_insert piggy_smash
run-calls = refl

run-PaysOnce_example : PaysOnce (run calls new)
run-PaysOnce_example = run-PaysOnce calls new (whole refl refl)

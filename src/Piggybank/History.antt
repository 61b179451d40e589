-- ===== src/Piggybank/History.antt =====
-- Histories of Piggybank/src/lib.rs: what is inserted and paid out, whoever calls.
use bachelor_project.Prelude.{
  ◌+◌, ◌-◌, false, ◌≡◌, refl, inl, inr, List, [], ◌∷◌, ◌++◌, Bool-cases, arith,
}
use bachelor_project.Contract.{AccountAddress, Amount, ReceiveContext, ok, err, trap}
use bachelor_project.Piggybank.{
  PiggyBankState, intact, smashed, Action, accept, simple_transfer, matches_account, is_intact,
  piggy_insert, piggy_smash,
}

-- The contract with its funds and the transfers out of it.
pub record Bank : Type 0 where
  pub state : PiggyBankState
  pub balance : Amount
  pub paid : List (AccountAddress × Amount)

pub data Call : Type 0 where
  insert : Amount → Call
  smash : Call

-- The chain carries the action out.
abbrev pub act : Action → Bank → Bank
act accept b = b
act (simple_transfer a x) b = record b { balance = b.balance - x; paid = b.paid ++ (a, x) ∷ [] }

unfoldable pub transact : ReceiveContext → Call → Bank → Bank
transact ctx (insert x) b = elim (piggy_insert ctx x b.state).0 [
  | ok action ↦
      act action (record b { state = (piggy_insert ctx x b.state).1; balance = b.balance + x })
  | err e ↦ b
  | trap ↦ b
]
transact ctx smash b = elim (piggy_smash ctx b.balance b.state).0 [
  | ok action ↦ act action (record b { state = (piggy_smash ctx b.balance b.state).1 })
  | err e ↦ b
  | trap ↦ b
]

unfoldable pub run : List (ReceiveContext × Call) → Bank → Bank
run [] b = b
run ((ctx, call) ∷ calls) b = run calls (transact ctx call b)

transact_smashed :
    (ctx : ReceiveContext) (call : Call) (b : Bank)
    → is_intact b.state ≡ false
    → transact ctx call b ≡ b
unfolding transact piggy_insert piggy_smash
transact_smashed ctx (insert x) b gone = ground arith
transact_smashed ctx smash b gone = ground arith

-- After it is smashed, no call changes the bank or pays anything, so it pays out once at most.
pub run_smashed :
    (calls : List (ReceiveContext × Call)) (b : Bank) → is_intact b.state ≡ false → run calls b ≡ b
unfolding run
run_smashed [] b gone = refl
run_smashed ((ctx, call) ∷ calls) b gone =
    rw (transact_smashed ctx call b gone) (run_smashed calls b gone)

-- The owner is paid everything, once the bank is smashed, and nobody is paid before.
pub data PaysOnce : Bank → Type 0 where
  whole : {b : Bank} → b.state ≡ intact → b.paid ≡ [] → PaysOnce b
  broken :
      {b : Bank} (owner : AccountAddress) (x : Amount)
      → b.state ≡ smashed
      → b.balance ≡ 0
      → b.paid ≡ (owner, x) ∷ []
      → PaysOnce b

transact-PaysOnce :
    (ctx : ReceiveContext) (call : Call) (b : Bank) → PaysOnce b → PaysOnce (transact ctx call b)
unfolding transact piggy_insert piggy_smash
transact-PaysOnce ctx (insert x) b (whole at none_paid) =
    PaysOnce.whole (ground arith) (ground arith)
transact-PaysOnce ctx smash b (whole at none_paid) =
    elim (Bool-cases (matches_account ctx.sender ctx.owner)) [
      | inl owner ↦ PaysOnce.broken ctx.owner b.balance (ground arith) (ground arith) (ground arith)
      | inr other ↦ PaysOnce.whole (ground arith) (ground arith)
    ]
transact-PaysOnce ctx call b (broken owner x at empty once) =
    rw (transact_smashed ctx call b (ground arith)) (PaysOnce.broken owner x at empty once)

-- Of a bank that is intact and has paid nothing, or is smashed and empty and has paid exactly once,
-- the same holds after any calls by anyone, in any order.
pub run-PaysOnce :
    (calls : List (ReceiveContext × Call)) (b : Bank) → PaysOnce b → PaysOnce (run calls b)
unfolding run
run-PaysOnce [] b p = p
run-PaysOnce ((ctx, call) ∷ calls) b p =
    run-PaysOnce calls (transact ctx call b) (transact-PaysOnce ctx call b p)

-- ===== src/Commerce/History.antt =====
-- Histories of the escrow of Commerce/src/lib.rs: any calls, by anyone, in any order.
use bachelor_project.Prelude.{◌≡◌}
use bachelor_project.Contract.{Amount, ReceiveContext, commit_keeps, Host}
use bachelor_project.Commerce.Entry.{Call, Escrow, credited, receive, transact}
use bachelor_project.Commerce.Effect.{Effect, named_item}
use bachelor_project.Commerce.Effect.Calls.{receive-Effect}

module _ (h : Host) where
  -- The worlds that calls lead to from `w`, each call as `Allowed` at the world where it is made.
  pub data Reach (Allowed : Escrow h → Call → Type 0) (w : Escrow h) : Escrow h → Type 0 where
    here : Reach Allowed w w
    next :
        {v u : Escrow h}
        → Reach Allowed w v
        → (ctx : ReceiveContext) (x : Amount) (call : Call) → Allowed v call
        → u ≡ transact h ctx x call v
        → Reach Allowed w u

  -- A transaction keeps what every effect keeps.
  pub transact_keeps :
      (P : Escrow h → Type 0) (ctx : ReceiveContext) (x : Amount) (call : Call) (w : Escrow h)
      → P w
      → ((v : Escrow h) → Effect h ctx (named_item call) x (credited h x w) v → P v)
      → P (transact h ctx x call w)
  unfolding transact
  transact_keeps P ctx x call w before after =
      commit_keeps P w (receive h ctx x call w) before
        (λ a e. after (receive h ctx x call w).1 (receive-Effect h ctx x call w e))

-- ===== src/Commerce/Solvency/Histories.antt =====
-- The escrow stays solvent, call by call.
use bachelor_project.Prelude.{ℕ, ◌≡◌, ap, ◌∙◌, arith}
use bachelor_project.Contract.{Amount, ReceiveContext, Host, HostLaws}
use bachelor_project.Commerce.Entry.{Call, Escrow, credited, transact}
use bachelor_project.Commerce.Lifecycle.{Moved, payment}
use bachelor_project.Commerce.Effect.{Effect, Enters, Relists, enters, moves, relists, named_item}
use bachelor_project.Commerce.Solvency.{price, holds, IsSolvent}
use bachelor_project.Commerce.Solvency.Sums.{
  held-set, held-append, AllItemZero-set, AllItemZero-append, AllItemZero-get,
}
use bachelor_project.Commerce.Solvency.Arrows.{arrow_covers, listed_price, settle_pays}
use bachelor_project.Commerce.History.{Reach, here, next, transact_keeps}

module _ (h : Host) (laws : HostLaws h) (ctx : ReceiveContext) (n : ℕ) (x : Amount)
    (n0 : n ≡ 0) where
  Enters-IsSolvent :
      (w v : Escrow h) → IsSolvent h w → Enters h ctx n x (credited h x w) v → IsSolvent h v
  Enters-IsSolvent w v s e = rw e.pushed (record {
    items = AllItemZero-append w.state.contracts e.entry s.items e.item_new;
    covered =
        rw (held-append (price w.state) w.state.contracts e.entry, laws.credit_balance, e.state_new)
          (omega (arith, listed_price w.state n x e.price_paid n0));
  })

  Moved-IsSolvent :
      (w v : Escrow h) → IsSolvent h w → Moved h ctx.sender n x (credited h x w) v → IsSolvent h v
  Moved-IsSolvent w v s (m, f) = record {
    items = rw f.written (
        AllItemZero-set w.state.contracts m.id m.after s.items
          (f.same_item ∙ AllItemZero-get w.state.contracts m.id s.items f.found));
    covered =
        let p = price w.state in
        rw (f.written, f.settled)
          (omega (
            arith,
            laws.credit_balance x w.chain,
            settle_pays h laws w.state.vendor m.before (payment m.edge m.price)
                (h.credit x w.chain),
            held-set p w.state.contracts m.id m.before m.after f.found,
            ap (λ t. holds t p) f.was,
            ap (λ t. holds t p) f.becomes,
            arrow_covers m.edge n w.state m.before m.price n0
                (AllItemZero-get w.state.contracts m.id s.items f.found) f.priced,
          ));
  }

  Relists-IsSolvent :
      (w v : Escrow h) → IsSolvent h w → Relists h ctx n x (credited h x w) v → IsSolvent h v
  Relists-IsSolvent w v s r =
      rw r.relisted (record { items = s.items; covered = rw r.no_purchase (omega arith) })

  Effect-IsSolvent :
      (w v : Escrow h) → IsSolvent h w → Effect h ctx n x (credited h x w) v → IsSolvent h v
  Effect-IsSolvent w v s (enters e) = Enters-IsSolvent w v s e
  Effect-IsSolvent w v s (moves m) = Moved-IsSolvent w v s m
  Effect-IsSolvent w v s (relists r) = Relists-IsSolvent w v s r

module _ (h : Host) (laws : HostLaws h) where
  -- A call that names item 0, where it names an item at all, leaves a solvent escrow solvent,
  -- whoever makes it and with whatever amount, whether it succeeds, is rejected or traps, and
  -- whether or not its transfer is made.
  pub transact-IsSolvent :
      (ctx : ReceiveContext) (x : Amount) (call : Call) (w : Escrow h)
      → named_item call ≡ 0
      → IsSolvent h w
      → IsSolvent h (transact h ctx x call w)
  transact-IsSolvent ctx x call w n0 s =
      transact_keeps h (IsSolvent h) ctx x call w s
        (λ v. Effect-IsSolvent h laws ctx (named_item call) x n0 w v s)

  -- From a solvent escrow, after any history of calls that name item 0 where they name an item,
  -- by anyone and with any amounts, the balance covers every open purchase.
  pub Reach-IsSolvent :
      {w v : Escrow h} → IsSolvent h w → Reach h (λ u call. named_item call ≡ 0) w v → IsSolvent h v
  Reach-IsSolvent s here = s
  Reach-IsSolvent s (next {v = u} r ctx x call n0 e) =
      rw e (transact-IsSolvent ctx x call u n0 (Reach-IsSolvent s r))

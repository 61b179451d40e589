-- ===== src/Commerce/Solvency/Sums.antt =====
-- What the purchases hold together, under a write and a push.
use bachelor_project.Prelude.{
  ℕ, zero, suc, ◌+◌, ◌≡◌, some, List, [], ◌∷◌, ◌++◌, get_elem?, set, arith,
}
use bachelor_project.Contract.{Amount}
use bachelor_project.Commerce.Types.{Purchase}
use bachelor_project.Commerce.Solvency.{holds, held, AllItemZero}

pub held-set :
    (x : Amount) (ps : List Purchase) (i : ℕ) (p q : Purchase)
    → get_elem? ps i ≡ some p
    → held x (set ps i q) + holds p.state x ≡ held x ps + holds q.state x
held-set x [] i p q h = cc
held-set x (r ∷ ps) zero p q h = ground arith
held-set x (r ∷ ps) (suc i) p q h = omega (arith, held-set x ps i p q h)

pub held-append :
    (x : Amount) (ps : List Purchase) (p : Purchase)
    → held x (ps ++ p ∷ []) ≡ held x ps + holds p.state x
held-append x [] p = omega arith
held-append x (r ∷ ps) p = omega (arith, held-append x ps p)

pub AllItemZero-set :
    (ps : List Purchase) (i : ℕ) (q : Purchase)
    → AllItemZero ps
    → q.item ≡ 0
    → AllItemZero (set ps i q)
AllItemZero-set [] i q h e = tt
AllItemZero-set (p ∷ ps) zero q h e = (e, h.1)
AllItemZero-set (p ∷ ps) (suc i) q h e = (h.0, AllItemZero-set ps i q h.1 e)

pub AllItemZero-append :
    (ps : List Purchase) (q : Purchase) → AllItemZero ps → q.item ≡ 0 → AllItemZero (ps ++ q ∷ [])
AllItemZero-append [] q h e = (e, tt)
AllItemZero-append (p ∷ ps) q h e = (h.0, AllItemZero-append ps q h.1 e)

pub AllItemZero-get :
    (ps : List Purchase) (i : ℕ) {p : Purchase}
    → AllItemZero ps
    → get_elem? ps i ≡ some p
    → p.item ≡ 0
AllItemZero-get [] i h e = cc
AllItemZero-get (p ∷ ps) zero h e = ground arith
AllItemZero-get (p ∷ ps) (suc i) h e = AllItemZero-get ps i h.1 e

-- ===== src/Commerce/Paths/Draws.antt =====
-- Commerce/src/lib.rs, `Arbitrary for ValidPath` and `Arbitrary for Funcs` of the tests: how a path
-- is drawn. The numbers that the generator yields are given as a list.
use native.Mathlib.Nat.{mod-lt, zero-lt-suc}
use mathlib.Core.Path.{subst}
use mathlib.Core.Option.{some-injective}
use bachelor_project.Prelude.Options.{◌>>=◌}
use bachelor_project.Prelude.{
  ℕ, zero, suc, ◌%◌, ◌≤◌, ◌<◌, ◌≡◌, refl, Bool, true, false, Option, none, some, List, [], ◌∷◌,
  length, get_elem?, arith,
}
use bachelor_project.Commerce.Types.{requested}
use bachelor_project.Commerce.Paths.{
  Choice, state_mappings, All, Funcs, buyer_abort_func, seller_reject_func, seller_delivered_func,
  buyer_confirm_func, seller_timeout_func, buyer_dispute_func, seller_forfeit_func,
  seller_counter_func, buyer_open_func, buyer_timeout_func, seller_accept_func, seller_update_func,
  seller_old_update_func,
}

-- The loop with the choices at hand, `none` where they are not in the map, or the numbers run out.
unfoldable pub draw_from : List ℕ → Option (List Choice) → Option (List Choice)
draw_from ds none = none
draw_from ds (some []) = some []
draw_from [] (some (c ∷ cs)) = none
draw_from (d ∷ ds) (some (c ∷ cs)) = do
  drawn ← get_elem? (c ∷ cs) (d % length (c ∷ cs))
  path ← draw_from ds (state_mappings drawn.state)
  some (drawn ∷ path)

-- `ValidPath::arbitrary`
abbrev pub arbitrary_path : List ℕ → Option (List Choice)
arbitrary_path ds = draw_from ds (state_mappings requested)

-- `Funcs::toVec`
abbrev pub to_vec : List Funcs
to_vec =
    buyer_abort_func ∷ seller_reject_func ∷ seller_update_func ∷ seller_delivered_func
    ∷ buyer_confirm_func ∷ seller_timeout_func ∷ buyer_dispute_func ∷ seller_forfeit_func
    ∷ seller_counter_func ∷ buyer_open_func ∷ buyer_timeout_func ∷ seller_accept_func ∷ []

-- `Funcs::arbitrary`, and `Vec::arbitrary` with as many numbers as it takes
abbrev pub arbitrary_func : ℕ → Option Funcs
arbitrary_func d = get_elem? to_vec (d % length to_vec)

unfoldable pub arbitrary_funcs : List ℕ → Option (List Funcs)
arbitrary_funcs [] = some []
arbitrary_funcs (d ∷ ds) = do
  func ← arbitrary_func d
  funcs ← arbitrary_funcs ds
  some (func ∷ funcs)

-- The paths along the arrows of the map, from the choices at hand.
pub data Along : Option (List Choice) → List Choice → Type 0 where
  done : Along (some []) []
  take :
      {c : Choice} {cs path : List Choice} (i : ℕ)
      → get_elem? cs i ≡ some c
      → Along (state_mappings c.state) path
      → Along (some cs) (c ∷ path)

-- Every path from the choices at hand ends within `n` choices.
abbrev Within : ℕ → Option (List Choice) → Type 0
Within n none = ⊥
Within n (some []) = Unit
Within zero (some (c ∷ cs)) = ⊥
Within (suc n) (some (c ∷ cs)) = All (λ d. Within n (state_mappings d.state)) (c ∷ cs)

pub All-get_elem? {ℓ} :
    {A : Type 0} (P : A → Type ℓ) (xs : List A) (i : ℕ) {x : A}
    → All P xs
    → get_elem? xs i ≡ some x
    → P x
All-get_elem? P [] i ps e = cc
All-get_elem? P (x ∷ xs) zero ps e = subst P (some-injective _ _ e) ps.0
All-get_elem? P (x ∷ xs) (suc i) ps e = All-get_elem? P xs i ps.1 e

get_elem?-total :
    {A : Type 0} (xs : List A) (i : ℕ) → i < length xs → (x : A) × (get_elem? xs i ≡ some x)
get_elem?-total [] i h = absurd (omega (arith, h))
get_elem?-total (x ∷ xs) zero h = (x, refl)
get_elem?-total (x ∷ xs) (suc i) h = get_elem?-total xs i (omega (arith, h))

draw_from-drawn :
    (d : ℕ) (ds : List ℕ) (c drawn : Choice) (cs path : List Choice)
    → get_elem? (c ∷ cs) (d % length (c ∷ cs)) ≡ some drawn
    → draw_from ds (state_mappings drawn.state) ≡ some path
    → draw_from (d ∷ ds) (some (c ∷ cs)) ≡ some (drawn ∷ path)
unfolding draw_from
draw_from-drawn d ds c drawn cs path e p = rw (e, p)

draw_from-total :
    (n : ℕ) (ds : List ℕ) (o : Option (List Choice))
    → Within n o
    → n ≤ length ds
    → (path : List Choice) × (draw_from ds o ≡ some path) × Along o path
unfolding draw_from
draw_from-total n ds none ws h = absurd ws
draw_from-total n ds (some []) ws h = ([], refl, done)
draw_from-total zero ds (some (c ∷ cs)) ws h = absurd ws
draw_from-total (suc n) [] (some (c ∷ cs)) ws h = absurd (omega (arith, h))
draw_from-total (suc n) (d ∷ ds) (some (c ∷ cs)) ws h =
    let i : ℕ = d % length (c ∷ cs) in
    let (drawn, e) = get_elem?-total (c ∷ cs) i (mod-lt d (zero-lt-suc (length cs))) in
    let (path, p, q) =
      draw_from-total n ds (state_mappings drawn.state)
        (All-get_elem? (λ f. Within n (state_mappings f.state)) (c ∷ cs) i ws e)
        (omega (arith, h)) in
    (drawn ∷ path, draw_from-drawn d ds c drawn cs path e p, take i e q)

-- Five numbers are enough to draw a path, and what is drawn is a path along the arrows of the map,
-- from requested to a state with no choices.
pub arbitrary_path-Along :
    (ds : List ℕ)
    → 5 ≤ length ds
    → (path : List Choice) × (arbitrary_path ds ≡ some path) × Along (state_mappings requested) path
arbitrary_path-Along ds h =
    draw_from-total 5 ds (state_mappings requested)
      ((tt, ((tt, (tt, ((tt, (tt, ((tt, (tt, tt)), tt))), tt))), tt)), (tt, (tt, tt))) h

-- `property_check2` has an arm for the function.
abbrev pub has_arm : Funcs → Bool
has_arm seller_old_update_func = false
has_arm _ = true

to_vec-has_arm : All (λ f. has_arm f ≡ true) to_vec
to_vec-has_arm = (
  refl,
  (refl, (refl, (refl, (refl, (refl, (refl, (refl, (refl, (refl, (refl, (refl, tt))))))))))),
)

-- Only functions that have an arm are drawn.
pub arbitrary_funcs-has_arm :
    (ds : List ℕ)
    → (funcs : List Funcs) × (arbitrary_funcs ds ≡ some funcs) × All (λ f. has_arm f ≡ true) funcs
unfolding arbitrary_funcs
arbitrary_funcs-has_arm [] = ([], refl, tt)
arbitrary_funcs-has_arm (d ∷ ds) =
    let i : ℕ = d % length to_vec in
    let (f, at_i) = get_elem?-total to_vec i (mod-lt d (zero-lt-suc 11)) in
    let (funcs, e, arms) = arbitrary_funcs-has_arm ds in
    (
      f ∷ funcs,
      rw (at_i, e),
      (All-get_elem? (λ g. has_arm g ≡ true) to_vec i to_vec-has_arm at_i, arms),
    )

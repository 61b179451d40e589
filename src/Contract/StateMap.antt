-- ===== src/Contract/StateMap.antt =====
-- A `StateMap` from accounts, as the contracts see it: a list of entries in the order of the keys,
-- which is the order of its iterator.
pub mod Sums
use bachelor_project.Prelude.{
  ◌≤◌, ◌<◌, ◌≡◌, refl, Option, none, some, List, [], ◌∷◌, ltb, ◌==◌, if◌then◌else◌, arith,
}
use bachelor_project.Contract.Monad.{AccountAddress}

abbrev pub StateMap {ℓ} : Type ℓ → Type ℓ
StateMap V = List (AccountAddress × V)

module _ {ℓ} {V : Type ℓ} where
  abbrev pub lookup : AccountAddress → StateMap V → Option V
  lookup k [] = none
  lookup k ((j, v) ∷ m) = if j == k then some v else lookup k m

  -- A new entry goes to its place in the order, an old one is replaced.
  abbrev pub insert : AccountAddress → V → StateMap V → StateMap V
  insert k v [] = (k, v) ∷ []
  insert k v ((j, w) ∷ m) =
      if j == k then (k, v) ∷ m else if ltb k j then (k, v) ∷ (j, w) ∷ m else (j, w) ∷ insert k v m

  -- Every key lies above `k`.
  abbrev pub IsAbove : AccountAddress → StateMap V → Type 0
  IsAbove k [] = Unit {0}
  IsAbove k ((j, _) ∷ m) = (k < j) × IsAbove k m

  abbrev pub IsOrdered : StateMap V → Type 0
  IsOrdered [] = Unit {0}
  IsOrdered ((j, _) ∷ m) = IsAbove j m × IsOrdered m

module _ {ℓ} {V : Type ℓ} where
  pub IsAbove-lower : (j k : AccountAddress) (m : StateMap V) → j ≤ k → IsAbove k m → IsAbove j m
  IsAbove-lower j k [] l a = tt
  IsAbove-lower j k (e ∷ m) l a = (omega arith, IsAbove-lower j k m l a.1)

  pub lookup-below :
      (k j : AccountAddress) (m : StateMap V) → k ≤ j → IsAbove j m → lookup k m ≡ none
  lookup-below k j [] l a = refl
  lookup-below k j (e ∷ m) l a = ground (arith, lookup-below k j m l a.1)

  pub insert-IsAbove :
      (j k : AccountAddress) (v : V) (m : StateMap V)
      → j < k
      → IsAbove j m
      → IsAbove j (insert k v m)
  insert-IsAbove j k v [] l a = (l, tt)
  insert-IsAbove j k v (e ∷ m) l a = ground (arith, insert-IsAbove j k v m l a.1)

  -- An insertion keeps the order.
  pub insert-IsOrdered :
      (k : AccountAddress) (v : V) (m : StateMap V) → IsOrdered m → IsOrdered (insert k v m)
  insert-IsOrdered k v [] o = (tt, tt)
  insert-IsOrdered k v (e ∷ m) o =
      ground (arith, insert-IsOrdered k v m o.1, insert-IsAbove e.0 k v m, IsAbove-lower k e.0 m)

  pub lookup-insert :
      (k j : AccountAddress) (v : V) (m : StateMap V)
      → lookup j (insert k v m) ≡ (if k == j then some v else lookup j m)
  lookup-insert k j v [] = refl
  lookup-insert k j v (e ∷ m) = ground (arith, lookup-insert k j v m)

  pub lookup-insert_self :
      (k : AccountAddress) (v : V) (m : StateMap V) → lookup k (insert k v m) ≡ some v
  lookup-insert_self k v [] = ground arith
  lookup-insert_self k v (e ∷ m) = ground (arith, lookup-insert_self k v m)

  -- A second write replaces the first.
  pub insert-insert :
      (k : AccountAddress) (v w : V) (m : StateMap V) → insert k v (insert k w m) ≡ insert k v m
  insert-insert k v w [] = ground arith
  insert-insert k v w (e ∷ m) = ground (arith, insert-insert k v w m)

-- ===== src/Auction/Bids.antt =====
-- The bids of Auction/src/lib.rs as a map: their sum, and the one highest bid.
use bachelor_project.Prelude.{
  ◌+◌, ◌≤◌, ◌<◌, ◌≡◌, ◌⊎◌, refl, inl, inr, Option, none, some, [], ◌∷◌, ltb, if◌then◌else◌, arith,
}
use bachelor_project.Contract.{AccountAddress, Amount}
use bachelor_project.Contract.StateMap.{StateMap, insert, IsOrdered, lookup-below}
use bachelor_project.Auction.{bid_of}

abbrev pub total : StateMap Amount → Amount
total [] = 0
total ((a, x) ∷ m) = x + total m

pub total-insert :
    (k : AccountAddress) (y : Amount) (m : StateMap Amount)
    → IsOrdered m
    → total (insert k y m) + bid_of k m ≡ total m + y
total-insert k y [] o = omega arith
total-insert k y ((j, x) ∷ m) o = ground (arith, total-insert k y m o.1, lookup-below k j m)

abbrev pub AtMost : Amount → StateMap Amount → Type 0
AtMost h [] = Unit {0}
AtMost h ((a, x) ∷ m) = (x ≤ h) × AtMost h m

abbrev pub Below : Amount → StateMap Amount → Type 0
Below h [] = Unit {0}
Below h ((a, x) ∷ m) = (x < h) × Below h m

-- Exactly one entry is `h`, and the others are smaller.
abbrev pub OneTop : Amount → StateMap Amount → Type 0
OneTop h [] = ⊥
OneTop h ((a, x) ∷ m) = ((x ≡ h) × Below h m) ⊎ ((x < h) × OneTop h m)

-- `h` is 0 while there is no bid, and then the one highest.
abbrev pub IsTop : Amount → StateMap Amount → Type 0
IsTop h [] = h ≡ 0
IsTop h (e ∷ m) = (0 < h) × OneTop h (e ∷ m)

Below-AtMost : (h : Amount) (m : StateMap Amount) → Below h m → AtMost h m
Below-AtMost h [] b = tt
Below-AtMost h (e ∷ m) b = (omega arith, Below-AtMost h m b.1)

OneTop-AtMost : (h : Amount) (m : StateMap Amount) → OneTop h m → AtMost h m
OneTop-AtMost h [] t = tt
OneTop-AtMost h (e ∷ m) (inl (same, b)) = (omega arith, Below-AtMost h m b)
OneTop-AtMost h (e ∷ m) (inr (less, t)) = (omega arith, OneTop-AtMost h m t)

pub IsTop-AtMost : (h : Amount) (m : StateMap Amount) → IsTop h m → AtMost h m
IsTop-AtMost h [] t = tt
IsTop-AtMost h (e ∷ m) t = OneTop-AtMost h (e ∷ m) t.1

AtMost-Below : (h y : Amount) (m : StateMap Amount) → h < y → AtMost h m → Below y m
AtMost-Below h y [] l b = tt
AtMost-Below h y (e ∷ m) l b = (omega arith, AtMost-Below h y m l b.1)

insert-OneTop :
    (h y : Amount) (k : AccountAddress) (m : StateMap Amount)
    → h < y
    → AtMost h m
    → OneTop y (insert k y m)
insert-OneTop h y k [] l b = inl (refl, tt)
insert-OneTop h y k (e ∷ m) l b =
    ground (arith, insert-OneTop h y k m l b.1, AtMost-Below h y m l b.1)

OneTop-IsTop : (h : Amount) (m : StateMap Amount) → 0 < h → OneTop h m → IsTop h m
OneTop-IsTop h [] p t = absurd t
OneTop-IsTop h (e ∷ m) p t = (p, t)

-- A bid above the highest becomes the one highest.
pub insert-IsTop :
    (h y : Amount) (k : AccountAddress) (m : StateMap Amount)
    → h < y
    → IsTop h m
    → IsTop y (insert k y m)
insert-IsTop h y k m l t =
    OneTop-IsTop y (insert k y m) (omega arith) (insert-OneTop h y k m l (IsTop-AtMost h m t))

-- Who holds the highest bid, and the entries that go back to their bidders.
abbrev pub winner : Amount → StateMap Amount → Option AccountAddress
winner h [] = none
winner h ((a, x) ∷ m) = if ltb x h then winner h m else some a

abbrev pub refunds : Amount → StateMap Amount → StateMap Amount
refunds h [] = []
refunds h ((a, x) ∷ m) = if ltb x h then (a, x) ∷ refunds h m else refunds h m

pub refunds_of_Below : (h : Amount) (m : StateMap Amount) → Below h m → refunds h m ≡ m
refunds_of_Below h [] b = refl
refunds_of_Below h (e ∷ m) b = ground (arith, refunds_of_Below h m b.1)

pub total-refunds :
    (h : Amount) (m : StateMap Amount) → OneTop h m → h + total (refunds h m) ≡ total m
total-refunds h [] t = absurd t
total-refunds h (e ∷ m) (inl (same, b)) = ground (arith, refunds_of_Below h m b)
total-refunds h (e ∷ m) (inr (less, t)) = ground (arith, total-refunds h m t)

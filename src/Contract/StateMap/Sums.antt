-- ===== src/Contract/StateMap/Sums.antt =====
-- Sums over the entries of a `StateMap`, and what an insertion does to them and to the length.
use bachelor_project.Prelude.{
  ℕ, suc, ◌+◌, ◌≤◌, ◌<◌, ◌≡◌, refl, sym, ap, ◌∙◌, inl, inr, Bool, true, false, none, some, [], ◌∷◌,
  length, ltb, ◌==◌, Bool-cases, arith, ltb→lt,
}
use bachelor_project.Contract.Monad.{AccountAddress}
use bachelor_project.Contract.StateMap.{StateMap, lookup, insert, IsOrdered, lookup-below}

-- What can be summed in any order.
pub record Sums (M : Type 0) : Type 0 where
  pub empty : M
  pub plus : M → M → M
  pub plus_comm : (a b : M) → plus a b ≡ plus b a
  pub plus_assoc : (a b d : M) → plus (plus a b) d ≡ plus a (plus b d)
  pub plus-empty : (a : M) → plus a empty ≡ a

abbrev pub numbers : Sums ℕ
numbers = record {
  empty = 0;
  plus = λ a b. a + b;
  plus_comm = λ a b. omega arith;
  plus_assoc = λ a b d. omega arith;
  plus-empty = λ a. omega arith;
}

lt_le : (a b : ℕ) → a < b → a ≤ b
lt_le a b h = omega arith

module _ {V M : Type 0} (s : Sums M) (weight : V → M) where
  unfoldable pub weigh : StateMap V → M
  weigh [] = s.empty
  weigh ((k, v) ∷ m) = s.plus (weight v) (weigh m)

  swap_plus : (a b d : M) → s.plus a (s.plus b d) ≡ s.plus b (s.plus a d)
  swap_plus a b d =
      sym (s.plus_assoc a b d) ∙ ap (λ t. s.plus t d) (s.plus_comm a b) ∙ s.plus_assoc b a d

  -- A new entry adds its weight.
  pub weigh-insert_new :
      (k : AccountAddress) (v : V) (m : StateMap V)
      → lookup k m ≡ none
      → weigh (insert k v m) ≡ s.plus (weight v) (weigh m)
  unfolding weigh
  weigh-insert_new k v [] e = refl
  weigh-insert_new k v ((j, w) ∷ m) e = elim (Bool-cases (j == k)) [
    | inl here ↦ ground (arith, e, here)
    | inr there ↦ elim (Bool-cases (ltb k j)) [
      | inl below ↦ rw (there, below) refl
      | inr above ↦
          rw (there, above)
            (ap (s.plus (weight w)) (weigh-insert_new k v m (ground (arith, e, there)))
              ∙ swap_plus (weight w) (weight v) (weigh m))
    ]
  ]

  -- An entry that weighed nothing is replaced.
  pub weigh-insert_old :
      (k : AccountAddress) (v w : V) (m : StateMap V)
      → IsOrdered m
      → lookup k m ≡ some w
      → weight w ≡ s.empty
      → weigh (insert k v m) ≡ s.plus (weight v) (weigh m)
  unfolding weigh
  weigh-insert_old k v w [] o e nothing = cc
  weigh-insert_old k v w ((j, u) ∷ m) o e nothing = elim (Bool-cases (j == k)) [
    | inl here ↦
        let same : u ≡ w = ground (arith, e, here) in
        rw here (
          ap (s.plus (weight v)) (
            sym (
              ap (λ t. s.plus t (weigh m)) (ap weight same ∙ nothing)
              ∙ s.plus_comm s.empty (weigh m)
              ∙ s.plus-empty (weigh m))))
    | inr there ↦ elim (Bool-cases (ltb k j)) [
      | inl below ↦
          absurd
            (ground (arith, e, there, below, lookup-below k j m (lt_le k j (ltb→lt k j below)) o.0))
      | inr above ↦
          rw (there, above)
            (ap (s.plus (weight u))
                (weigh-insert_old k v w m o.1 (ground (arith, e, there)) nothing)
              ∙ swap_plus (weight u) (weight v) (weigh m))
    ]
  ]

  -- An entry is replaced by one of the same weight.
  pub weigh-insert_same :
      (k : AccountAddress) (v w : V) (m : StateMap V)
      → IsOrdered m
      → lookup k m ≡ some w
      → weight v ≡ weight w
      → weigh (insert k v m) ≡ weigh m
  unfolding weigh
  weigh-insert_same k v w [] o e same = cc
  weigh-insert_same k v w ((j, u) ∷ m) o e same = elim (Bool-cases (j == k)) [
    | inl here ↦
        let it : w ≡ u = ground (arith, e, here) in
        rw here (ap (λ t. s.plus t (weigh m)) (same ∙ ap weight it))
    | inr there ↦ elim (Bool-cases (ltb k j)) [
      | inl below ↦
          absurd
            (ground (arith, e, there, below, lookup-below k j m (lt_le k j (ltb→lt k j below)) o.0))
      | inr above ↦
          rw (there, above)
            (ap (s.plus (weight u)) (weigh-insert_same k v w m o.1 (ground (arith, e, there)) same))
    ]
  ]

pub length-insert_new :
    {V : Type 0} (k : AccountAddress) (v : V) (m : StateMap V)
    → lookup k m ≡ none
    → length (insert k v m) ≡ suc (length m)
length-insert_new k v [] e = refl
length-insert_new k v ((j, w) ∷ m) e = ground (arith, length-insert_new k v m)

pub length-insert_old :
    {V : Type 0} (k : AccountAddress) (v w : V) (m : StateMap V)
    → IsOrdered m
    → lookup k m ≡ some w
    → length (insert k v m) ≡ length m
length-insert_old k v w [] o e = cc
length-insert_old k v w ((j, u) ∷ m) o e =
    ground (arith, length-insert_old k v w m o.1, lookup-below k j m, o.0)

abbrev pub one_if : Bool → ℕ
one_if true = 1
one_if false = 0

module _ {V : Type 0} (test : V → Bool) where
  -- How many entries meet the test.
  abbrev pub count : StateMap V → ℕ
  count m = weigh numbers (λ v. one_if (test v)) m

  pub count-le : (m : StateMap V) → count m ≤ length m
  unfolding weigh
  count-le [] = omega arith
  count-le ((k, v) ∷ m) = ground (arith, count-le m)

-- ===== src/Commerce/Solvency/Arrows.antt =====
-- Each arrow pays out no more than the purchase held and the caller brought.
use bachelor_project.Prelude.{ℕ, ◌+◌, ◌≤◌, ◌≡◌, inl, inr, Option, none, some, Option-cases, arith}
use bachelor_project.Contract.{AccountAddress, Amount, usize, Host, HostLaws}
use bachelor_project.Commerce.Types.{State, Purchase, ContractState}
use bachelor_project.Commerce.Solvency.{price, holds}
use bachelor_project.Commerce.Lifecycle.{
  Role, Edge, aborted, agreed, sent, payment, stake, IsListed, IsPriced, account_of, settle,
}

abbrev pub owed : Option (Role × Amount) → Amount
owed none = 0
owed (some (r, x)) = x

pub listed_price : (s : ContractState) (i : ℕ) (x : Amount) → IsListed s i x → i ≡ 0 → x ≡ price s
listed_price s i x (l, there, e) z = ground arith

pub arrow_covers :
    {r : Role} {from to : State} (e : Edge r from to) (n : ℕ) (s : ContractState) (p : Purchase)
    (x : Amount)
    → n ≡ 0
    → p.item ≡ 0
    → IsPriced e n s p x
    → holds to (price s) + owed (payment e x) ≤ holds from (price s) + stake e x
arrow_covers agreed n s p x n0 p0 l = omega arith
arrow_covers sent n s p x n0 p0 l = omega arith
arrow_covers aborted n s p x n0 p0 l = omega (arith, listed_price s n x l n0)
arrow_covers _ n s p x n0 p0 l = omega (arith, listed_price s (usize p.item) x l (omega arith))

module _ (h : Host) (laws : HostLaws h) where
  pub settle_pays :
      (vendor : AccountAddress) (p : Purchase) (o : Option (Role × Amount)) (c : h.Chain)
      → h.self_balance c ≤ h.self_balance (settle h vendor p o c) + owed o
  settle_pays vendor p none c = omega arith
  settle_pays vendor p (some (r, x)) c =
      let a = account_of r vendor p in
      elim (Option-cases (h.invoke_transfer a x c).0) [
        | inl made ↦ omega (arith, laws.transfer_pays a x c made)
        | inr (e, refused) ↦ rw (laws.transfer_refused a x c refused) (omega arith)
      ]

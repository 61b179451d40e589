-- ===== src/Commerce/Evolution.antt =====
-- What no history of the escrow of Commerce/src/lib.rs can change, and how each purchase lives.
use mathlib.Core.Path.{subst}
use bachelor_project.Prelude.{
  ℕ, ◌≤◌, ◌<◌, ◌≡◌, ◌∙◌, ◌⊎◌, refl, sym, ap, inl, inr, some, List, [], ◌∷◌, length, get_elem?, ◌==◌,
  ==_iff, Bool-cases, length-append, length-set, get_elem?-set_self, get_elem?-set_ne,
  get_elem?-append, arith,
}
use bachelor_project.Contract.{Amount, ReceiveContext, Host}
use bachelor_project.Commerce.Types.{State, rejected, completed, failed, Purchase, ContractState}
use bachelor_project.Commerce.Entry.{Escrow, credited}
use bachelor_project.Commerce.Lifecycle.{Role, Edge, aborted, Move, Fits}
use bachelor_project.Commerce.Effect.{Effect, enters, moves, relists}
use bachelor_project.Commerce.History.{Reach, here, next, transact_keeps}

-- Arrows one after the other.
pub data Follows : State → State → Type 0 where
  stay : {s : State} → Follows s s
  then : {s t u : State} {r : Role} → Follows s t → Edge r t u → Follows s u

pub Follows-trans : {s t u : State} → Follows s t → Follows t u → Follows s u
Follows-trans f stay = f
Follows-trans f (then g e) = then (Follows-trans f g) e

-- The purchase under the id is still there: the same buyer's, for the same item, further on.
pub record Lives (p : Purchase) (i : ℕ) (s : ContractState) : Type 0 where
  pub now : Purchase
  pub found : get_elem? s.contracts i ≡ some now
  pub same_buyer : now.buyer ≡ p.buyer
  pub same_item : now.item ≡ p.item
  pub follows : Follows p.state now.state

pub record Evolves (s t : ContractState) : Type 0 where
  pub vendor_same : t.vendor ≡ s.vendor
  pub timeout_same : t.timeout ≡ s.timeout
  pub grows : length s.contracts ≤ length t.contracts
  pub prices_fixed : 0 < length s.contracts → t.listings ≡ s.listings
  pub lives : (i : ℕ) (p : Purchase) → get_elem? s.contracts i ≡ some p → Lives p i t

Evolves-refl : (s : ContractState) → Evolves s s
Evolves-refl s = record {
  vendor_same = refl;
  timeout_same = refl;
  grows = omega arith;
  prices_fixed = λ some_there. refl;
  lives =
      λ i p e. record { now = p; found = e; same_buyer = refl; same_item = refl; follows = stay };
}

Lives-trans : {p : Purchase} {i : ℕ} {s t : ContractState} → Lives p i s → Evolves s t → Lives p i t
Lives-trans {i = i} l e =
    let k = e.lives i l.now l.found in
    record {
      now = k.now;
      found = k.found;
      same_buyer = k.same_buyer ∙ l.same_buyer;
      same_item = k.same_item ∙ l.same_item;
      follows = Follows-trans l.follows k.follows;
    }

Evolves-trans : {s t u : ContractState} → Evolves s t → Evolves t u → Evolves s u
Evolves-trans e f = record {
  vendor_same = f.vendor_same ∙ e.vendor_same;
  timeout_same = f.timeout_same ∙ e.timeout_same;
  grows = omega arith;
  prices_fixed = λ some_there. f.prices_fixed (omega arith) ∙ e.prices_fixed some_there;
  lives = λ i p there. Lives-trans (e.lives i p there) f;
}

module _ (h : Host) where
  module _ (ctx : ReceiveContext) (n : ℕ) (x : Amount) (w v : Escrow h) where
    moved-Lives :
        (m : Move)
        → Fits h ctx.sender n x (credited h x w) m v
        → (i : ℕ) (p : Purchase) → get_elem? w.state.contracts i ≡ some p
        → Lives p i v.state
    moved-Lives m f i p there = elim (Bool-cases (i == m.id)) [
      | inl same ↦
          let at_id : i ≡ m.id = (==_iff i m.id).0 same in
          let is_before : p ≡ m.before = cc in
          record {
            now = m.after;
            found =
                rw (f.written, at_id) (get_elem?-set_self w.state.contracts m.id m.after f.found);
            same_buyer = cc;
            same_item = cc;
            follows =
                subst (λ s. Follows s m.after.state)
                  (sym (ap (λ (q : Purchase). q.state) is_before ∙ f.was))
                  (subst (Follows m.from) (sym f.becomes) (then stay m.edge));
          }
      | inr other ↦ record {
        now = p;
        found = rw f.written (
            rw (get_elem?-set_ne w.state.contracts {i = m.id} {j = i} m.after (ground arith))
              there);
        same_buyer = refl;
        same_item = refl;
        follows = stay;
      }
    ]

    Effect-Evolves : Effect h ctx n x (credited h x w) v → Evolves w.state v.state
    Effect-Evolves (enters e) = rw e.pushed (record {
      vendor_same = refl;
      timeout_same = refl;
      grows = omega (arith, length-append w.state.contracts (e.entry ∷ []));
      prices_fixed = λ some_there. refl;
      lives = λ i p there. record {
        now = p;
        found = get_elem?-append w.state.contracts (e.entry ∷ []) i there;
        same_buyer = refl;
        same_item = refl;
        follows = stay;
      };
    })
    Effect-Evolves (moves (m, f)) = record {
      vendor_same = rw f.written;
      timeout_same = rw f.written;
      grows = rw f.written (omega (arith, length-set w.state.contracts m.id m.after));
      prices_fixed = λ some_there. rw f.written;
      lives = moved-Lives m f;
    }
    Effect-Evolves (relists r) = rw r.relisted (record {
      vendor_same = refl;
      timeout_same = refl;
      grows = omega arith;
      prices_fixed =
          λ some_there. absurd (omega (arith, ap (λ (t : List Purchase). length t) r.no_purchase));
      lives = λ i p there. record {
        now = p;
        found = there;
        same_buyer = refl;
        same_item = refl;
        follows = stay;
      };
    })

  Reach-Evolves : {w v : Escrow h} → Reach h (λ u call. Unit {0}) w v → Evolves w.state v.state
  Reach-Evolves {w} here = Evolves-refl w.state
  Reach-Evolves (next {v = u} {u = v} r ctx x call allowed e) = Evolves-trans (Reach-Evolves r) (
      rw e (
        transact_keeps h (λ t. Evolves u.state t.state) ctx x call u (Evolves-refl u.state)
          (λ t. Effect-Evolves ctx _ x u t)))

  -- Once there is a purchase, no listing and so no price changes, whatever calls are made and by
  -- whom; nor do the vendor and the timeout, and no purchase disappears.
  pub Reach-prices_fixed :
      {w v : Escrow h}
      → Reach h (λ u call. Unit {0}) w v
      → 0 < length w.state.contracts
      → (v.state.listings ≡ w.state.listings)
        × (v.state.vendor ≡ w.state.vendor)
        × (v.state.timeout ≡ w.state.timeout)
        × (length w.state.contracts ≤ length v.state.contracts)
  Reach-prices_fixed r bought =
      let e = Reach-Evolves r in (e.prices_fixed bought, e.vendor_same, e.timeout_same, e.grows)

  -- Whatever calls are made and by whom, a purchase keeps its id, its buyer and its item, and its
  -- state moves along the arrows of a purchase's life only.
  pub Reach-Lives :
      {w v : Escrow h} (i : ℕ) (p : Purchase)
      → Reach h (λ u call. Unit {0}) w v
      → get_elem? w.state.contracts i ≡ some p
      → Lives p i v.state
  Reach-Lives i p r there = (Reach-Evolves r).lives i p there

abbrev pub IsOver : State → Type 0
IsOver s = (s ≡ rejected) ⊎ (s ≡ completed) ⊎ (s ≡ failed)

no_arrow : {r : Role} {s t : State} → Edge r s t → IsOver s → ⊥
no_arrow aborted o = ground arith
no_arrow _ o = ground arith

Follows-IsOver : {s t : State} → Follows s t → IsOver s → t ≡ s
Follows-IsOver stay o = refl
Follows-IsOver (then f e) o = absurd (no_arrow e (subst IsOver (sym (Follows-IsOver f o)) o))

-- A purchase that was rejected, completed or failed never moves again, whatever calls are made.
pub Reach-IsOver :
    (h : Host) {w v : Escrow h} (i : ℕ) (p : Purchase)
    → Reach h (λ u call. Unit {0}) w v
    → get_elem? w.state.contracts i ≡ some p
    → IsOver p.state
    → (q : Purchase) × (get_elem? v.state.contracts i ≡ some q) × (q.state ≡ p.state)
Reach-IsOver h i p r there o =
    let l = (Reach-Evolves h r).lives i p there in (l.now, l.found, Follows-IsOver l.follows o)

-- ===== src/Commerce/Solvency.antt =====
-- Whether the escrow of Commerce/src/lib.rs can pay what it owes: what it must hold for each
-- purchase, by the purchase's state, against its balance.
pub mod Sums
pub mod Arrows
pub mod Histories
use bachelor_project.Prelude.{ℕ, ◌+◌, ◌*◌, ◌≤◌, ◌≡◌, Option, none, some, List, [], ◌∷◌, get_elem?}
use bachelor_project.Contract.{Amount, Host}
use bachelor_project.Commerce.Types.{
  State, requested, accepted, delivered, dispute, counter, Item, Purchase, ContractState,
}
use bachelor_project.Commerce.Entry.{Escrow}

-- The price of item 0, which every purchase is entered with.
abbrev pub price_of : Option Item → Amount
price_of none = 0
price_of (some l) = l.item_value

abbrev pub price : ContractState → Amount
price s = price_of (get_elem? s.listings 0)

-- What a purchase at price `x` has brought in and may still have to pay out.
abbrev pub holds : State → Amount → Amount
holds requested x = x
holds accepted x = x
holds delivered x = x
holds dispute x = 2 * x
holds counter x = 3 * x
holds _ x = 0

abbrev pub held : Amount → List Purchase → Amount
held x [] = 0
held x (p ∷ ps) = holds p.state x + held x ps

abbrev pub AllItemZero : List Purchase → Type 0
AllItemZero [] = Unit {0}
AllItemZero (p ∷ ps) = (p.item ≡ 0) × AllItemZero ps

-- The balance covers every open purchase.
pub record IsSolvent (h : Host) (w : Escrow h) : Type 0 where
  pub items : AllItemZero w.state.contracts
  pub covered : held (price w.state) w.state.contracts ≤ h.self_balance w.chain

-- ===== src/Commerce/Lifecycle.antt =====
-- What the escrow of Commerce/src/lib.rs promises of one purchase, apart from the code: the arrows
-- of its life, who may take each, what each must bring and what it pays. The children show that
-- the entrypoints keep to it.
pub mod ByBuyer
pub mod BySeller
use bachelor_project.Prelude.{
  ℕ, ◌*◌, ◌≡◌, refl, true, Option, none, some, u64, set, get_elem?, inl, inr, Option-cases,
}
use bachelor_project.Contract.{AccountAddress, Amount, Address, World, usize, Host}
use bachelor_project.Commerce.Types.{
  State, requested, accepted, rejected, delivered, completed, dispute, counter, failed, Item,
  Purchase, ContractState, matches_account, purchase_at, listing_at,
}

pub data Role : Type 0 where
  buyer seller : Role

-- The arrows. An opened commitment has a winner.
pub data Edge : Role → State → State → Type 0 where
  aborted : Edge buyer requested failed
  declined : Edge seller requested rejected
  agreed : Edge seller requested accepted
  sent : Edge seller accepted delivered
  overdue : Edge buyer accepted failed
  confirmed : Edge buyer delivered completed
  unconfirmed : Edge seller delivered completed
  disputed : Edge buyer delivered dispute
  forfeited : Edge seller dispute failed
  unanswered : Edge buyer dispute failed
  countered : Edge seller dispute counter
  opened : Role → Edge buyer counter failed
  unopened : Edge seller counter completed

-- Who is paid how much when the arrow is taken, at the price of the item.
abbrev pub payment : {r : Role} {s t : State} → Edge r s t → Amount → Option (Role × Amount)
payment aborted x = some (buyer, x)
payment declined x = some (buyer, x)
payment agreed x = none
payment sent x = none
payment overdue x = some (buyer, x)
payment confirmed x = some (seller, x)
payment unconfirmed x = some (seller, x)
payment disputed x = none
payment forfeited x = some (buyer, u64 (x * 2))
payment unanswered x = some (buyer, u64 (x * 2))
payment countered x = none
payment (opened winner) x = some (winner, u64 (2 * x))
payment unopened x = some (seller, x)

-- The wager that the caller must send along.
abbrev pub stake : {r : Role} {s t : State} → Edge r s t → Amount → Amount
stake disputed x = x
stake countered x = x
stake aborted x = 0
stake declined x = 0
stake agreed x = 0
stake sent x = 0
stake overdue x = 0
stake confirmed x = 0
stake unconfirmed x = 0
stake forfeited x = 0
stake unanswered x = 0
stake (opened _) x = 0
stake unopened x = 0

abbrev pub IsListed : ContractState → ℕ → Amount → Type 0
IsListed s i x = (l : Item) × (get_elem? s.listings i ≡ some l) × (l.item_value ≡ x)

-- Which price an arrow goes by: an abort by that of the item `n` that its caller names, the others
-- by that of the purchase's own item, and two by none.
abbrev pub IsPriced :
    {r : Role} {s t : State} → Edge r s t → ℕ → ContractState → Purchase → Amount → Type 0
IsPriced aborted n s p x = IsListed s n x
IsPriced agreed n s p x = Unit
IsPriced sent n s p x = Unit
IsPriced declined n s p x = IsListed s (usize p.item) x
IsPriced overdue n s p x = IsListed s (usize p.item) x
IsPriced confirmed n s p x = IsListed s (usize p.item) x
IsPriced unconfirmed n s p x = IsListed s (usize p.item) x
IsPriced disputed n s p x = IsListed s (usize p.item) x
IsPriced forfeited n s p x = IsListed s (usize p.item) x
IsPriced unanswered n s p x = IsListed s (usize p.item) x
IsPriced countered n s p x = IsListed s (usize p.item) x
IsPriced (opened _) n s p x = IsListed s (usize p.item) x
IsPriced unopened n s p x = IsListed s (usize p.item) x

abbrev pub account_of : Role → AccountAddress → Purchase → AccountAddress
account_of buyer vendor p = p.buyer
account_of seller vendor p = vendor

-- One arrow, taken by one purchase.
pub record Move : Type 0 where
  pub id : ℕ
  pub before : Purchase
  pub after : Purchase
  pub price : Amount
  pub role : Role
  pub from : State
  pub to : State
  pub edge : Edge role from to

abbrev pub move : {r : Role} {s t : State} → ℕ → Purchase → Purchase → Amount → Edge r s t → Move
move {r} {s} {t} i p q x e = record {
  id = i;
  before = p;
  after = q;
  price = x;
  role = r;
  from = s;
  to = t;
  edge = e;
}

module _ (h : Host) where
  abbrev pub settle : AccountAddress → Purchase → Option (Role × Amount) → h.Chain → h.Chain
  settle vendor p none c = c
  settle vendor p (some (r, x)) c = (h.invoke_transfer (account_of r vendor p) x c).1

  -- The call of `sender`, with the amount `x`, which names item `n`, changed `w` to `v` by this move and by nothing else.
  pub record Fits (sender : Address) (n : ℕ) (x : Amount) (w : World ContractState h.Chain)
      (m : Move) (v : World ContractState h.Chain) : Type 0 where
    pub found : get_elem? w.state.contracts m.id ≡ some m.before
    pub was : m.before.state ≡ m.from
    pub becomes : m.after.state ≡ m.to
    pub allowed : matches_account sender (account_of m.role w.state.vendor m.before) ≡ true
    pub same_buyer : m.after.buyer ≡ m.before.buyer
    pub same_item : m.after.item ≡ m.before.item
    pub priced : IsPriced m.edge n w.state m.before m.price
    pub staked : x ≡ stake m.edge m.price
    pub written : v.state ≡ record w.state { contracts = set w.state.contracts m.id m.after }
    pub settled : v.chain ≡ settle w.state.vendor m.before (payment m.edge m.price) w.chain

  abbrev pub Moved :
      Address → ℕ → Amount → World ContractState h.Chain → World ContractState h.Chain → Type 0
  Moved sender n x w v = (m : Move) × Fits sender n x w m v

-- What a call finds under an id: no purchase, one whose item is not listed, or both.
pub data Sight {C : Type 0} (w : World ContractState C) (i : ℕ) : Type 0 where
  nothing : purchase_at i w ≡ none → Sight w i
  unlisted :
      (p : Purchase) → purchase_at i w ≡ some p → listing_at (usize p.item) w ≡ none → Sight w i
  listed :
      (p : Purchase) (l : Item)
      → purchase_at i w ≡ some p
      → listing_at (usize p.item) w ≡ some l
      → Sight w i

pub sight : {C : Type 0} (w : World ContractState C) (i : ℕ) → Sight w i
sight w i = elim (Option-cases (purchase_at i w)) [
  | inl missing ↦ nothing missing
  | inr (p, found) ↦ elim (Option-cases (listing_at (usize p.item) w)) [
    | inl missing ↦ unlisted p found missing
    | inr (l, there) ↦ listed p l found there
  ]
]

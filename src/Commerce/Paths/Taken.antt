-- ===== src/Commerce/Paths/Taken.antt =====
-- Every choice of the tests of Commerce/src/lib.rs can be taken, and leads where the map says.
use bachelor_project.Prelude.{ℕ, ◌+◌, ◌<◌, ◌≡◌, Bool, Option, none, some, List, ◌∷◌, u64_mod}
use bachelor_project.Contract.{AccountAddress, Amount, ok, Host}
use bachelor_project.Commerce.Types.{State, Purchase, Item, purchase_at}
use bachelor_project.Commerce.Entry.{Escrow}
use bachelor_project.Commerce.Paths.{Choice, take_choice}

-- What the test sets up, and each choice keeps: purchase 0 is the buyer's, of item 0, not committed
-- to, and the timeout is short.
pub record IsReady (h : Host) (vendor buyer : AccountAddress) (value : Amount) (w : Escrow h)
    (p : Purchase) : Type 0 where
  pub others : List Purchase
  pub first : w.state.contracts ≡ p ∷ others
  pub listing : Item
  pub more : List Item
  pub listed : w.state.listings ≡ listing ∷ more
  pub priced : listing.item_value ≡ value
  pub vendor_is : w.state.vendor ≡ vendor
  pub buyer_is : p.buyer ≡ buyer
  pub item_is : p.item ≡ 0
  pub uncommitted : p.commit ≡ 0
  pub short : w.state.timeout < 10
  pub early : p.timestamp + 10 < u64_mod

abbrev pub state_of : Option Purchase → Option State
state_of none = none
state_of (some p) = some p.state

module _ (h : Host) (vendor buyer : AccountAddress) (value now : ℕ) (seller_wins : Bool) where
  -- The choice is accepted and ends in its state.
  abbrev pub Reaches : Escrow h → Choice → Type 0
  Reaches w c =
      ((take_choice vendor buyer value seller_wins 0 h now c.func w).0 ≡ some (ok tt))
      × (state_of (purchase_at 0 (take_choice vendor buyer value seller_wins 0 h now c.func w).1)
          ≡ some c.state)

-- ===== src/Commerce/Paths/RandomChecked.antt =====
-- `property_check2` of Commerce/src/lib.rs, over all lists of functions that can be drawn.
use mathlib.Core.Path.{ap, ◌∙◌}
use bachelor_project.Prelude.{
  ℕ, Bool, true, false, Option, none, some, List, [], ◌∷◌, get_elem?, ◌≡◌, refl, arith,
}
use bachelor_project.Contract.{AccountAddress, Amount, Outcome, ok, bind_ok, ◌>>◌}
use bachelor_project.Contract.Ledger.{ledger_host}
use bachelor_project.Commerce.Types.{Purchase, Item, purchase_at, listing_at, commerce_init}
use bachelor_project.Commerce.Buyer.{
  buyer_request_purchase, buyer_abort, buyer_confirm_delivery, buyer_dispute_delivery,
  buyer_call_timeout, buyer_open_commitment,
}
use bachelor_project.Commerce.Seller.{
  seller_call_timeout, seller_reject_contract, seller_accept_contract, seller_item_was_delivered,
  seller_forfeit_dispute, seller_counter_dispute, seller_update_listings,
}
use bachelor_project.Commerce.Entry.{Escrow, dispatch}
use bachelor_project.Commerce.Paths.{
  Funcs, buyer_abort_func, seller_reject_func, seller_delivered_func, buyer_confirm_func,
  seller_timeout_func, buyer_dispute_func, seller_forfeit_func, seller_counter_func,
  buyer_open_func, buyer_timeout_func, seller_accept_func, seller_update_func,
  seller_old_update_func, All,
}
use bachelor_project.Commerce.Paths.Draws.{has_arm, arbitrary_funcs, arbitrary_funcs-has_arm}
use bachelor_project.Commerce.Paths.Check.{verdict}
use bachelor_project.Commerce.Paths.Random.{
  as_u64, call_random, assert_unchanged, call_all, assert_not_made, property_check2,
}

abbrev buyer_and_item : Option Purchase → Option (AccountAddress × ℕ)
buyer_and_item none = none
buyer_and_item (some p) = some (p.buyer, p.item)

abbrev price : Option Item → Option Amount
price none = none
price (some item) = some item.item_value

first_purchase :
    (ps : List Purchase) {t : AccountAddress × ℕ}
    → buyer_and_item (get_elem? ps 0) ≡ some t
    → (p : Purchase) × (others : List Purchase) × (ps ≡ p ∷ others)
      × (p.buyer ≡ t.0)
      × (p.item ≡ t.1)
first_purchase [] e = cc
first_purchase (p ∷ others) e = (p, others, refl, cc, cc)

first_listing :
    (items : List Item) {x : Amount}
    → price (get_elem? items 0) ≡ some x
    → (item : Item) × (more : List Item) × (items ≡ item ∷ more) × (item.item_value ≡ x)
first_listing [] e = cc
first_listing (item ∷ more) e = (item, more, refl, cc)

module _ (vendor buyer : AccountAddress) (item_value item_amount item_update : Bool) where
  -- What every call keeps: the buyer and the item of the first purchase, and the first listing's price.
  abbrev Kept : Escrow ledger_host → Type 0
  Kept w =
      (buyer_and_item (purchase_at 0 w) ≡ some (buyer, 0))
      × (price (listing_at 0 w) ≡ some (as_u64 item_value))
      × (w.state.vendor ≡ vendor)

  record Laid (w : Escrow ledger_host) : Type 0 where
    purchase : Purchase
    others : List Purchase
    first : w.state.contracts ≡ purchase ∷ others
    by_buyer : purchase.buyer ≡ buyer
    of_item : purchase.item ≡ 0
    listing : Item
    more : List Item
    listed : w.state.listings ≡ listing ∷ more
    priced : listing.item_value ≡ as_u64 item_value
    owned : w.state.vendor ≡ vendor

  Kept-Laid : (w : Escrow ledger_host) → Kept w → Laid w
  Kept-Laid w (bought, priced, owned) =
      let (p, others, first, by_buyer, of_item) = first_purchase w.state.contracts bought in
      let (item, more, listed, at_price) = first_listing w.state.listings priced in
      record {
        purchase = p;
        others = others;
        first = first;
        by_buyer = by_buyer;
        of_item = of_item;
        listing = item;
        more = more;
        listed = listed;
        priced = at_price;
        owned = owned;
      }

  module _ (w : Escrow ledger_host) (k : Laid w) where
    abbrev call : Funcs → Outcome Bool (Unit {0}) × Escrow ledger_host
    call f = call_random vendor buyer item_value item_amount item_update 0 f w

    abbrev Keeps : Funcs → Type 0
    Keeps f = ((call f).0 ≡ ok tt) × Kept (call f).1

    Keeps-abort : Keeps buyer_abort_func
    unfolding call_random dispatch buyer_abort
    Keeps-abort = ground arith

    Keeps-reject : Keeps seller_reject_func
    unfolding call_random dispatch seller_reject_contract
    Keeps-reject = ground arith

    Keeps-update : Keeps seller_update_func
    unfolding call_random dispatch seller_update_listings
    Keeps-update = ground arith

    Keeps-delivered : Keeps seller_delivered_func
    unfolding call_random dispatch seller_item_was_delivered
    Keeps-delivered = ground arith

    Keeps-confirm : Keeps buyer_confirm_func
    unfolding call_random dispatch buyer_confirm_delivery
    Keeps-confirm = ground arith

    Keeps-seller_timeout : Keeps seller_timeout_func
    unfolding call_random dispatch seller_call_timeout
    Keeps-seller_timeout = ground arith

    Keeps-dispute : Keeps buyer_dispute_func
    unfolding call_random dispatch buyer_dispute_delivery
    Keeps-dispute = ground arith

    Keeps-forfeit : Keeps seller_forfeit_func
    unfolding call_random dispatch seller_forfeit_dispute
    Keeps-forfeit = ground arith

    Keeps-counter : Keeps seller_counter_func
    unfolding call_random dispatch seller_counter_dispute
    Keeps-counter = ground arith

    Keeps-open : Keeps buyer_open_func
    unfolding call_random dispatch buyer_open_commitment
    Keeps-open = ground arith

    Keeps-timeout : Keeps buyer_timeout_func
    unfolding call_random dispatch buyer_call_timeout
    Keeps-timeout = ground arith

    Keeps-accept : Keeps seller_accept_func
    unfolding call_random dispatch seller_accept_contract
    Keeps-accept = ground arith

    keeps : (f : Funcs) → has_arm f ≡ true → Keeps f
    keeps buyer_abort_func h = Keeps-abort
    keeps seller_reject_func h = Keeps-reject
    keeps seller_update_func h = Keeps-update
    keeps seller_delivered_func h = Keeps-delivered
    keeps buyer_confirm_func h = Keeps-confirm
    keeps seller_timeout_func h = Keeps-seller_timeout
    keeps buyer_dispute_func h = Keeps-dispute
    keeps seller_forfeit_func h = Keeps-forfeit
    keeps seller_counter_func h = Keeps-counter
    keeps buyer_open_func h = Keeps-open
    keeps buyer_timeout_func h = Keeps-timeout
    keeps seller_accept_func h = Keeps-accept
    keeps seller_old_update_func h = cc

    unchanged : assert_unchanged vendor buyer item_value item_amount item_update w ≡ (ok tt, w)
    unfolding assert_unchanged
    unchanged = ground arith

  call_all_passes :
      (funcs : List Funcs) (w : Escrow ledger_host)
      → All (λ f. has_arm f ≡ true) funcs
      → Kept w
      → (v : Escrow ledger_host) × (call_all vendor buyer item_value item_amount item_update 0 funcs
            w
          ≡ (ok true, v))
  unfolding call_all
  call_all_passes [] w hs k = (w, refl)
  call_all_passes (f ∷ funcs) w (h, hs) k =
      let (answered, kept) = keeps w (Kept-Laid w k) f h in
      let u : Escrow ledger_host = (call w (Kept-Laid w k) f).1 in
      let (v, e) = call_all_passes funcs u hs kept in
      (
        v,
        bind_ok (call_random vendor buyer item_value item_amount item_update 0 f)
              (λ t.
                assert_unchanged vendor buyer item_value item_amount item_update
                >> call_all vendor buyer item_value item_amount item_update 0 funcs)
              w (ap (λ (r : Outcome Bool (Unit {0})). (r, u)) answered)
            ∙ bind_ok (assert_unchanged vendor buyer item_value item_amount item_update)
                (λ t. call_all vendor buyer item_value item_amount item_update 0 funcs) u
                (unchanged u (Kept-Laid u kept))
            ∙ e,
      )

module _ (vendor buyer : AccountAddress) (item_update : Bool) where
  -- A purchase that is paid for at its price is made, and one that is not is refused.
  passes :
      (item_value item_amount : Bool) (funcs : List Funcs)
      → All (λ f. has_arm f ≡ true) funcs
      → property_check2 vendor buyer item_value item_amount item_update funcs ≡ some true
  unfolding property_check2 assert_not_made buyer_request_purchase commerce_init
  passes true true funcs hs =
      let (v, e) =
        call_all_passes vendor buyer true true item_update funcs _ hs (refl, refl, refl) in
      ap (λ (r : Outcome Bool Bool × Escrow ledger_host). verdict r.0) e
  passes false false funcs hs =
      let (v, e) =
        call_all_passes vendor buyer false false item_update funcs _ hs (refl, refl, refl) in
      ap (λ (r : Outcome Bool Bool × Escrow ledger_host). verdict r.0) e
  passes true false funcs hs = ground arith
  passes false true funcs hs = ground arith

  -- Whatever functions are drawn, in any order and number, the test returns true, without a panic:
  -- where the purchase is made, no call changes the price of the listing, the buyer of the
  -- purchase or the vendor, and no call traps; where it is not, there is no purchase.
  pub property_check2-passes :
      (item_value item_amount : Bool) (draws : List ℕ)
      → (funcs : List Funcs) × (arbitrary_funcs draws ≡ some funcs)
        × (property_check2 vendor buyer item_value item_amount item_update funcs ≡ some true)
  property_check2-passes item_value item_amount draws =
      let (funcs, drawn, arms) = arbitrary_funcs-has_arm draws in
      (funcs, drawn, passes item_value item_amount funcs arms)

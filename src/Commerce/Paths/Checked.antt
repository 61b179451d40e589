-- ===== src/Commerce/Paths/Checked.antt =====
-- `property_check` of Commerce/src/lib.rs, over all paths that can be drawn.
use mathlib.Core.Path.{ap, ◌∙◌}
use bachelor_project.Prelude.{
  ℕ, ◌<◌, ◌≤◌, ◌≡◌, ◌≢◌, refl, lt→ltb, Bool, true, some, List, [], ◌∷◌, length, arith,
}
use bachelor_project.Contract.{AccountAddress, Amount, Outcome, ok, bind_ok, ◌>>=◌}
use bachelor_project.Contract.Ledger.{ledger_host}
use bachelor_project.Commerce.Types.{State, null, requested, commerce_init}
use bachelor_project.Commerce.Buyer.{buyer_request_purchase}
use bachelor_project.Commerce.Entry.{Escrow}
use bachelor_project.Commerce.Paths.{Choice}
use bachelor_project.Commerce.Paths.Draws.{arbitrary_path, arbitrary_path-Along}
use bachelor_project.Commerce.Paths.Check.{
  walk, check_path, check_transfers, request, property_check, test_world, verdict,
}
use bachelor_project.Commerce.Paths.Steps.{at, full}
use bachelor_project.Commerce.Paths.Passing.{Good}
use bachelor_project.Commerce.Paths.Arriving.{from_start}

module _ (vendor buyer : AccountAddress) (value : Amount) where
  -- The world of the test before the purchase is requested.
  abbrev before : Escrow ledger_host
  before = record {
    state = record {
      vendor = vendor;
      timeout = 1;
      contracts = [];
      listings = record { item_value = value; description = "Some item" } ∷ [];
    };
    chain = full;
  }

  test_begins : test_world vendor 18446744073709551615 value ≡ some before
  unfolding commerce_init
  test_begins = refl

  requests :
      (b : Bool)
      → request vendor buyer value b before ≡ (ok 0, at vendor buyer value requested 0 full)
  unfolding buyer_request_purchase
  requests b = ground arith

  transfers_pass :
      (b : Bool) (t : State × State) (v : Escrow ledger_host)
      → Good vendor buyer value b t.0 t.1 v
      → check_transfers vendor buyer value b t v ≡ (ok true, v)
  unfolding check_transfers
  transfers_pass b (prev, s) v (sent, holds) = rw (lt→ltb _ _ sent, holds)

  check_path-walked :
      (b : Bool) (path : List Choice) (t : State × State) (v : Escrow ledger_host)
      → walk vendor buyer value b 0 path null null (at vendor buyer value requested 0 full)
        ≡ (ok t, v)
      → Good vendor buyer value b t.0 t.1 v
      → check_path vendor buyer value b path before ≡ (ok true, v)
  unfolding check_path
  check_path-walked b path t v walked good =
      bind_ok (request vendor buyer value b)
        (λ id. walk vendor buyer value b id path null null >>= check_transfers vendor buyer value b)
        before (requests b)
      ∙ bind_ok (walk vendor buyer value b 0 path null null) (check_transfers vendor buyer value b)
          (at vendor buyer value requested 0 full) walked
      ∙ transfers_pass b t v good

  property_check-walked :
      (b : Bool) (path : List Choice) (t : State × State) (v : Escrow ledger_host)
      → walk vendor buyer value b 0 path null null (at vendor buyer value requested 0 full)
        ≡ (ok t, v)
      → Good vendor buyer value b t.0 t.1 v
      → property_check vendor buyer value b path ≡ some true
  unfolding property_check commerce_init
  property_check-walked b path t v walked good =
      ap (λ (r : Outcome Bool Bool × Escrow ledger_host). verdict r.0)
        (check_path-walked b path t v walked good)

-- Whatever is drawn, the test returns true, without a panic: of every path from requested along the
-- arrows of the map, each choice is accepted and ends in the state that the map says, and the
-- buyer and the vendor are paid back what the test expects; for a vendor other than the buyer and
-- a price of one byte.
pub property_check-passes :
    (vendor buyer : AccountAddress) (value : Amount) (seller_wins : Bool) (draws : List ℕ)
    → vendor ≢ buyer
    → value < 256
    → 5 ≤ length draws
    → (path : List Choice) × (arbitrary_path draws ≡ some path)
      × (property_check vendor buyer value seller_wins path ≡ some true)
property_check-passes vendor buyer value seller_wins draws distinct small enough =
    let (path, drawn, along) = arbitrary_path-Along draws enough in
    let (t, v, walked, good) =
      from_start vendor buyer value distinct small seller_wins path along in
    (path, drawn, property_check-walked vendor buyer value seller_wins path t v walked good)

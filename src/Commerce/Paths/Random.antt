-- ===== src/Commerce/Paths/Random.antt =====
-- Commerce/src/lib.rs, the test `property_check2`: entrypoints called in any order, and what no call
-- changes.
use bachelor_project.Prelude.{ℕ, Bool, true, false, Option, none, some, List, [], ◌∷◌, ◌==◌, length}
use bachelor_project.Contract.{
  AccountAddress, Outcome, ok, err, trap, Reject, pure, gets, unwrap, ◌>>=◌, ◌>>◌,
}
use bachelor_project.Contract.Ledger.{ledger_host}
use bachelor_project.Commerce.Types.{purchase_at, listing_at}
use bachelor_project.Commerce.Buyer.{buyer_request_purchase}
use bachelor_project.Commerce.Entry.{Call, update_listings, Failure, Escrow}
use bachelor_project.Commerce.Paths.{Funcs, seller_update_func, call_of, call_entrypoint}
use bachelor_project.Commerce.Paths.Check.{
  Test, assert, verdict, request_context, request_parameter, test_world,
}

-- `b as u64`
abbrev pub as_u64 : Bool → ℕ
as_u64 true = 1
as_u64 false = 0

module _ (vendor buyer : AccountAddress) (item_value item_amount item_update : Bool) where
  abbrev pub random_call : ℕ → Funcs → Option Call
  random_call id seller_update_func = some (
      update_listings (some (record { item_id = 0; description = ""; value = as_u64 item_update })))
  random_call id func = call_of vendor buyer (as_u64 item_amount) true id func

  -- An error of the call is not looked at; a function without an arm ends the test.
  abbrev pub ignore_error :
      Option (Outcome Failure (Unit {0})) × Escrow ledger_host
      → Outcome Bool (Unit {0}) × Escrow ledger_host
  ignore_error (none, v) = (err false, v)
  ignore_error (some (ok _), v) = (ok tt, v)
  ignore_error (some (err _), v) = (ok tt, v)
  ignore_error (some trap, v) = (trap, v)

  -- `match func { … }`
  unfoldable pub call_random : ℕ → Funcs → Test (Unit {0})
  call_random id func w = ignore_error (
      call_entrypoint vendor buyer (as_u64 item_amount) true id ledger_host 0 func
        (random_call id func) w)

  -- The assertions after each call.
  unfoldable pub assert_unchanged : Test (Unit {0})
  assert_unchanged = do
    listing ← unwrap (← gets (listing_at 0))
    assert (listing.item_value == as_u64 item_value)
    purchase ← unwrap (← gets (purchase_at 0))
    assert (purchase.buyer == buyer)
    owner ← gets (λ w. w.state.vendor)
    assert (owner == vendor)

  -- `for func in randomPath`
  unfoldable pub call_all : ℕ → List Funcs → Test Bool
  call_all id [] = pure true
  call_all id (func ∷ funcs) = do call_random id func; assert_unchanged; call_all id funcs

  -- The assertions where the request is refused.
  unfoldable pub assert_not_made : Test Bool
  assert_not_made = do
    listing ← unwrap (← gets (listing_at 0))
    assert (listing.item_value == as_u64 item_value)
    purchases ← gets (λ w. length w.state.contracts)
    assert (purchases == 0)
    owner ← gets (λ w. w.state.vendor)
    assert (owner == vendor)
    pure true

  abbrev pub after_request :
      List Funcs → Outcome Reject ℕ × Escrow ledger_host → Outcome Bool Bool × Escrow ledger_host
  after_request funcs (ok id, w) = call_all id funcs w
  after_request funcs (err _, w) = assert_not_made w
  after_request funcs (trap, w) = (trap, w)

  abbrev pub request_amount : Escrow ledger_host → Outcome Reject ℕ × Escrow ledger_host
  request_amount w =
      buyer_request_purchase ledger_host (request_context buyer) (some request_parameter)
        (as_u64 item_amount) w

  unfoldable pub property_check2 : List Funcs → Option Bool
  property_check2 funcs = elim (test_world vendor 0 (as_u64 item_value)) [
    | none ↦ none
    | some w ↦ verdict (after_request funcs (request_amount w)).0
  ]

-- ===== src/Commerce/Paths/Check.antt =====
-- Commerce/src/lib.rs, the tests `property_check` and `property_check2`, as functions. A test ends
-- early with a Boolean, as an error of the monad, or panics, as a trap.
use bachelor_project.Prelude.{
  ℕ, ◌+◌, ◌*◌, Bool, true, false, ◌&&◌, Option, none, some, List, [], ◌∷◌, u64, ltb, ◌==◌, length,
  if◌then◌else◌,
}
use bachelor_project.Contract.{
  AccountAddress, Amount, account, ReceiveContext, Outcome, ok, err, trap, Receive, pure, gets,
  unwrap, ◌>>=◌, ◌>>◌,
}
use bachelor_project.Contract.Ledger.{ledger_host}
use bachelor_project.Commerce.Types.{
  State, null, requested, accepted, rejected, dispute, counter, failed, is_state, Item, purchase_at,
  commerce_init, BuyerRequestPurchaseParameter,
}
use bachelor_project.Commerce.Buyer.{buyer_request_purchase}
use bachelor_project.Commerce.Entry.{Failure, Escrow}
use bachelor_project.Commerce.Paths.{Choice, take_choice}

abbrev pub Test : Type 0 → Type 0
Test A = Receive (Escrow ledger_host) Bool A

-- `assert!(b)`
abbrev pub assert : Bool → Test (Unit {0})
assert true w = pure tt w
assert false w = (trap, w)

-- What the test returns; `none` is a panic.
abbrev pub verdict : Outcome Bool Bool → Option Bool
verdict (ok b) = some b
verdict (err b) = some b
verdict trap = none

-- The two calls are made without an amount being credited, as `TestHost` does.
abbrev pub request_context : AccountAddress → ReceiveContext
request_context buyer = record { sender = account buyer; owner = buyer; slot_time = 0 }

abbrev pub request_parameter : BuyerRequestPurchaseParameter
request_parameter = record { info = ""; timestamp = 0; item = 0 }

-- `state.listings.insert(0, …)`
abbrev insert_listing : Item → Escrow ledger_host → Escrow ledger_host
insert_listing item w = record w { state = record w.state { listings = item ∷ w.state.listings } }

-- The test host over the state that `commerce_init` returns, with a balance and a listing.
abbrev pub test_world : AccountAddress → Amount → Amount → Option (Escrow ledger_host)
test_world vendor balance value =
    elim (commerce_init (some (record { vendor = vendor; timeout = 1 }))) [
      | ok s ↦ some (
          insert_listing (record { item_value = value; description = "Some item" })
            (record { state = s; chain = record { balance = balance; paid = [] } }))
      | err _ ↦ none
      | trap ↦ none
    ]

-- `assert!(!result.is_err()); result.unwrap()`
abbrev expect_ok : {E A : Type 0} → Receive (Escrow ledger_host) E A → Test A
expect_ok m w =
    let (r, v) = m w in elim r [ ok a ↦ (ok a, v) | err _ ↦ (trap, v) | trap ↦ (trap, v) ]

module _ (vendor buyer : AccountAddress) (value : Amount) (seller_wins : Bool) where
  -- The result of the call of a choice: no arm or an error ends the test with `false`.
  abbrev pub expect_taken :
      Option (Outcome Failure (Unit {0})) × Escrow ledger_host
      → Outcome Bool (Unit {0}) × Escrow ledger_host
  expect_taken (none, v) = (err false, v)
  expect_taken (some (ok _), v) = (ok tt, v)
  expect_taken (some (err _), v) = (err false, v)
  expect_taken (some trap, v) = (trap, v)

  -- `for choice in validPath.0`, with the state before the last choice, and after it.
  unfoldable pub walk : ℕ → List Choice → State → State → Test (State × State)
  walk id [] prev state = pure (prev, state)
  walk id (choice ∷ choices) prev state = do
    (λ w. expect_taken (take_choice vendor buyer value seller_wins id ledger_host 0 choice.func w))
    purchase ← unwrap (← gets (purchase_at 0))
    assert (is_state purchase.state choice.state)
    walk id choices state purchase.state

  -- `buyer_payback` and `seller_payback`
  unfoldable pub payback : AccountAddress → Amount → List (AccountAddress × Amount) → Amount
  payback a total [] = total
  payback a total ((address, amount) ∷ transfers) =
      payback a (if address == a then u64 (total + amount) else total) transfers

  -- The assertions on what was paid back, by the last state and the one before it.
  unfoldable pub paid_back : State → State → Amount → Amount → Bool
  paid_back prev rejected to_buyer to_seller = value == to_buyer
  paid_back requested failed to_buyer to_seller = to_buyer == value && to_seller == 0
  paid_back accepted failed to_buyer to_seller = to_buyer == value && to_seller == 0
  paid_back dispute failed to_buyer to_seller = to_buyer == u64 (value * 2) && to_seller == 0
  paid_back counter failed to_buyer to_seller =
      if seller_wins
      then to_buyer == 0 && to_seller == u64 (value * 2)
      else to_buyer == u64 (value * 2) && to_seller == 0
  paid_back _ _ to_buyer to_seller = true

  -- The assertions on the transfers.
  unfoldable pub check_transfers : State × State → Test Bool
  check_transfers (prev, state) = do
    transfers ← gets (λ w. w.chain.paid)
    assert (ltb 0 (length transfers))
    assert (paid_back prev state (payback buyer 0 transfers) (payback vendor 0 transfers))
    pure true

  abbrev pub request : Test ℕ
  request =
      expect_ok
        (buyer_request_purchase ledger_host (request_context buyer) (some request_parameter) value)

  -- `property_check` from the test host on
  unfoldable pub check_path : List Choice → Test Bool
  check_path path = do id ← request; states ← walk id path null null; check_transfers states

  unfoldable pub property_check : List Choice → Option Bool
  property_check path = elim (test_world vendor 18446744073709551615 value) [
    | none ↦ none
    | some w ↦ verdict (check_path path w).0
  ]

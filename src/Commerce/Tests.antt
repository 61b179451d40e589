-- ===== src/Commerce/Tests.antt =====
-- A purchase that is disputed and won back, run on the concrete host, and the theorems about the
-- escrow of Commerce/src/lib.rs at it.
use bachelor_project.Prelude.{
  ℕ, ◌≤◌, ◌≡◌, refl, inr, false, none, some, List, [], ◌∷◌, length, get_elem?, arith,
}
use bachelor_project.Contract.{account, ReceiveContext, ok, err}
use bachelor_project.Contract.Ledger.{ledger_host, ledger_host-HostLaws, pay}
use bachelor_project.Commerce.Types.{requested, accepted, delivered, failed, Purchase, Item, Errors}
use bachelor_project.Commerce.Buyer.{buyer_request_purchase, buyer_abort, buyer_dispute_delivery}
use bachelor_project.Commerce.Entry.{
  Call, request_purchase, abort, dispute_delivery, accept_contract, errors, Escrow, credited,
  dispatch, receive, transact,
}
use bachelor_project.Commerce.Effect.{Effect, named_item}
use bachelor_project.Commerce.Effect.Calls.{receive-Effect}
use bachelor_project.Commerce.History.{Reach, here, next}
use bachelor_project.Commerce.Solvency.{IsSolvent}
use bachelor_project.Commerce.Solvency.Histories.{Reach-IsSolvent}
use bachelor_project.Commerce.Evolution.{Lives, Reach-prices_fixed, Reach-Lives, Reach-IsOver}
use bachelor_project.Commerce.Rejections.{receive-err_unchanged}

-- Account 1 sells, account 2 buys.
abbrev by : ℕ → ReceiveContext
by a = record { sender = account a; owner = 1; slot_time = 0 }

abbrev lamp : Item
lamp = record { item_value = 50; description = "lamp" }

abbrev purchase : Purchase
purchase = record {
  commit = 0;
  timestamp = 5;
  item = 0;
  seller_bit = false;
  notes = "";
  state = delivered;
  buyer = 2;
}

abbrev shop : List Purchase → ℕ → ℕ → Escrow ledger_host
shop ps timeout balance = record {
  state = record {
    vendor = 1;
    timeout = timeout;
    contracts = ps;
    listings = lamp ∷ record { item_value = 900; description = "boat" } ∷ [];
  };
  chain = record { balance = balance; paid = [] };
}

abbrev before : Escrow ledger_host
before = shop (purchase ∷ []) 3 50

abbrev disputing : Call
disputing = dispute_delivery (some (record { id = 0; commitment = 0 }))

receive_succeeds : (receive ledger_host (by 2) 50 disputing before).0 ≡ ok tt
unfolding receive dispatch buyer_dispute_delivery
receive_succeeds = refl

receive-Effect_example :
    Effect ledger_host
      (by 2)
      0
      50
      (credited ledger_host 50 before)
      (receive ledger_host (by 2) 50 disputing before).1
receive-Effect_example = receive-Effect ledger_host (by 2) 50 disputing before receive_succeeds

before-IsSolvent : IsSolvent ledger_host before
before-IsSolvent = record { items = (refl, tt); covered = omega arith }

-- A dispute, which succeeds, and a call by a stranger, which does not.
abbrev after : Escrow ledger_host
after =
    transact ledger_host (by 9) 0 (accept_contract none)
      (transact ledger_host (by 2) 50 disputing before)

history : Reach ledger_host (λ u call. named_item call ≡ 0) before after
history = next (next here (by 2) 50 disputing refl refl) (by 9) 0 (accept_contract none) refl refl

any_history : Reach ledger_host (λ u call. Unit {0}) before after
any_history = next (next here (by 2) 50 disputing tt refl) (by 9) 0 (accept_contract none) tt refl

Reach-IsSolvent_example : IsSolvent ledger_host after
Reach-IsSolvent_example = Reach-IsSolvent ledger_host ledger_host-HostLaws before-IsSolvent history

Reach-prices_fixed_example :
    (after.state.listings ≡ before.state.listings)
    × (after.state.vendor ≡ before.state.vendor)
    × (after.state.timeout ≡ before.state.timeout)
    × (length before.state.contracts ≤ length after.state.contracts)
Reach-prices_fixed_example = Reach-prices_fixed ledger_host any_history (omega arith)

Reach-Lives_example : Lives purchase 0 after.state
Reach-Lives_example = Reach-Lives ledger_host 0 purchase any_history refl

-- Aborted after it was rejected: nothing happens.
abbrev over : Purchase
over = record purchase { state = failed }

abbrev closed : Escrow ledger_host
closed = shop (over ∷ []) 3 50

aborting :
    Reach ledger_host
      (λ u call. Unit {0})
      closed
      (transact ledger_host (by 2) 0 (abort (some (record { id = 0; item = 1 }))) closed)
aborting = next here (by 2) 0 (abort (some (record { id = 0; item = 1 }))) tt refl

Reach-IsOver_example :
    (q : Purchase) × (get_elem?
        (transact ledger_host
          (by 2)
          0
          (abort (some (record { id = 0; item = 1 })))
          closed).state.contracts
        0
      ≡ some q)
    × (q.state ≡ failed)
Reach-IsOver_example = Reach-IsOver ledger_host 0 over aborting refl (inr (inr refl))

receive_refuses :
    (receive ledger_host (by 3) 0 (abort (some (record { id = 0; item = 1 }))) closed).0
    ≡ err (errors Errors.matching_account_error)
unfolding receive dispatch buyer_abort
receive_refuses = refl

receive-err_unchanged_example :
    let v = (receive ledger_host (by 3) 0 (abort (some (record { id = 0; item = 1 }))) closed).1 in
    (v.state ≡ closed.state) × (v.chain.paid ≡ [])
receive-err_unchanged_example =
    receive-err_unchanged ledger_host ledger_host-HostLaws (by 3) 0
      (abort (some (record { id = 0; item = 1 }))) closed receive_refuses

abbrev late : Escrow ledger_host
late = shop (record purchase { state = accepted } ∷ []) 60000 50

-- Paid for as a boat, entered as a lamp; and aborted at the price of the boat.
boat_bought_as_lamp :
    (transact ledger_host
      (by 2)
      900
      (request_purchase (some (record { info = ""; timestamp = 0; item = 1 })))
      (shop [] 3 0)).state.contracts
    ≡ record {
      commit = 0;
      timestamp = 0;
      item = 0;
      seller_bit = false;
      notes = "";
      state = requested;
      buyer = 2;
    }
      ∷ []
unfolding transact receive dispatch buyer_request_purchase
boat_bought_as_lamp = refl

lamp_aborted_as_boat :
    (transact ledger_host
      (by 2)
      0
      (abort (some (record { id = 0; item = 1 })))
      (shop (record purchase { state = requested } ∷ []) 3 1000)).chain
    ≡ record { balance = 100; paid = (2, 900) ∷ [] }
unfolding transact receive dispatch buyer_abort pay
lamp_aborted_as_boat = refl

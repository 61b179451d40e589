-- ===== src/Commerce/Paths.antt =====
-- The tests of Commerce/src/lib.rs: the map of choices from which `ValidPath` draws, and the call
-- that `property_check` makes for a choice.
pub mod Taken
pub mod Draws
pub mod Check
pub mod Steps
pub mod Passing
pub mod Arriving
pub mod Checked
pub mod Random
pub mod RandomChecked
mod Tests
use bachelor_project.Prelude.{
  ℕ, ◌+◌, ◌<◌, ◌≡◌, ◌⊎◌, refl, Bool, true, false, Option, none, some, List, [], ◌∷◌, u64_mod, arith,
}
use bachelor_project.Contract.{
  AccountAddress, Amount, account, ReceiveContext, Outcome, ok, usize, Host,
}
use bachelor_project.Commerce.Types.{
  State, null, requested, accepted, rejected, delivered, completed, dispute, counter, failed,
  Purchase, Item, purchase_at, listing_at,
}
use bachelor_project.Commerce.Buyer.{
  buyer_abort, buyer_confirm_delivery, buyer_dispute_delivery, buyer_call_timeout,
  buyer_open_commitment,
}
use bachelor_project.Commerce.Seller.{
  seller_call_timeout, seller_reject_contract, seller_accept_contract, seller_item_was_delivered,
  seller_forfeit_dispute, seller_counter_dispute,
}
use bachelor_project.Commerce.Entry.{
  Call, abort, confirm_delivery, dispute_delivery, timeout_by_buyer, open_commitment,
  timeout_by_seller, reject_contract, accept_contract, item_was_delivered, forfeit_dispute,
  counter_dispute, update_listings, Failure, Escrow, dispatch,
}

pub data Funcs : Type 0 where
  buyer_abort_func seller_reject_func seller_delivered_func buyer_confirm_func : Funcs
  seller_timeout_func buyer_dispute_func seller_forfeit_func seller_counter_func : Funcs
  buyer_open_func buyer_timeout_func seller_accept_func : Funcs
  -- `seller_updateListings`, and `seller_UpdateListings`
  seller_old_update_func seller_update_func : Funcs

pub record Choice : Type 0 where
  pub state : State
  pub func : Funcs

abbrev pub choice : State → Funcs → Choice
choice s f = record { state = s; func = f }

-- `stateMappings`; `none` is a key that is not in the map.
abbrev pub state_mappings : State → Option (List Choice)
state_mappings requested = some (
    choice accepted seller_accept_func
    ∷ choice failed buyer_abort_func
    ∷ choice rejected seller_reject_func
    ∷ [])
state_mappings rejected = some []
state_mappings accepted =
    some (choice failed buyer_timeout_func ∷ choice delivered seller_delivered_func ∷ [])
state_mappings delivered = some (
    choice completed buyer_confirm_func
    ∷ choice completed seller_timeout_func
    ∷ choice dispute buyer_dispute_func
    ∷ [])
state_mappings dispute = some (
    choice failed buyer_timeout_func
    ∷ choice failed seller_forfeit_func
    ∷ choice counter seller_counter_func
    ∷ [])
state_mappings counter =
    some (choice failed buyer_open_func ∷ choice completed seller_timeout_func ∷ [])
state_mappings completed = some []
state_mappings failed = some []
state_mappings null = none

abbrev pub All {ℓ} : {A : Type 0} → (A → Type ℓ) → List A → Type ℓ
All P [] = Unit
All P (x ∷ xs) = P x × All P xs

abbrev pub AllSome {ℓ} : {A : Type 0} → (A → Type ℓ) → Option (List A) → Type ℓ
AllSome P none = Unit
AllSome P (some xs) = All P xs

module _ (vendor buyer : AccountAddress) (value : Amount) (seller_wins : Bool) (id : ℕ) where
  -- The call for a function: about the purchase `id` and item 0, with a commitment of 0 and the seller's
  -- bit false; `none` is the arm for a function that no path holds.
  abbrev pub call_of : Funcs → Option Call
  call_of buyer_abort_func = some (abort (some (record { id = id; item = 0 })))
  call_of buyer_confirm_func = some (confirm_delivery (some (record { id = id })))
  call_of buyer_dispute_func = some (dispute_delivery (some (record { id = id; commitment = 0 })))
  call_of buyer_timeout_func = some (timeout_by_buyer (some (record { id = id })))
  call_of buyer_open_func =
      some (open_commitment (some (record { id = id; buyer_bit = seller_wins; nonce = 0 })))
  call_of seller_timeout_func = some (timeout_by_seller (some (record { id = id })))
  call_of seller_reject_func = some (reject_contract (some (record { id = id })))
  call_of seller_accept_func = some (accept_contract (some (record { id = id })))
  call_of seller_delivered_func = some (item_was_delivered (some (record { id = id })))
  call_of seller_forfeit_func = some (forfeit_dispute (some (record { id = id })))
  call_of seller_counter_func =
      some (counter_dispute (some (record { id = id; random_bit = false })))
  call_of seller_old_update_func = none
  call_of seller_update_func = none

  abbrev pub caller_of : Funcs → AccountAddress
  caller_of buyer_abort_func = buyer
  caller_of buyer_confirm_func = buyer
  caller_of buyer_dispute_func = buyer
  caller_of buyer_timeout_func = buyer
  caller_of buyer_open_func = buyer
  caller_of _ = vendor

  abbrev pub amount_of : Funcs → Amount
  amount_of buyer_dispute_func = value
  amount_of seller_counter_func = value
  amount_of _ = 0

  module _ (h : Host) (now : ℕ) where
    abbrev pub context_of : Funcs → ReceiveContext
    context_of f = record { sender = account (caller_of f); owner = vendor; slot_time = now }

    abbrev call_entrypoint :
        Funcs → Option Call → Escrow h → Option (Outcome Failure (Unit {0})) × Escrow h
    call_entrypoint f none w = (none, w)
    call_entrypoint f (some call) w =
        let (r, v) = dispatch h (context_of f) (amount_of f) call w in (some r, v)

    -- `match choice.func { … }`; the entrypoint is called directly, so nothing is credited.
    unfoldable pub take_choice : Funcs → Escrow h → Option (Outcome Failure (Unit {0})) × Escrow h
    take_choice f w = call_entrypoint f (call_of f) w

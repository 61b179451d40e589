-- ===== src/Commerce/Paths/Steps.antt =====
-- The steps of `property_check` of Commerce/src/lib.rs: each choice takes one world of the test to
-- the next.
use mathlib.Core.Bool.{xor}
use bachelor_project.Prelude.{
  ℕ, ◌-◌, ◌*◌, ◌<◌, ◌≡◌, Bool, true, false, some, [], ◌∷◌, ◌⊎◌, if◌then◌else◌, arith,
}
use bachelor_project.Contract.{AccountAddress, Amount, ok}
use bachelor_project.Contract.Ledger.{Ledger, ledger_host, pay}
use bachelor_project.Commerce.Types.{
  State, requested, accepted, rejected, delivered, completed, dispute, counter, failed,
}
use bachelor_project.Commerce.Buyer.{
  buyer_abort, buyer_confirm_delivery, buyer_dispute_delivery, buyer_call_timeout,
  buyer_open_commitment,
}
use bachelor_project.Commerce.Seller.{
  seller_call_timeout, seller_reject_contract, seller_accept_contract, seller_item_was_delivered,
  seller_forfeit_dispute, seller_counter_dispute,
}
use bachelor_project.Commerce.Entry.{Escrow, dispatch}
use bachelor_project.Commerce.Paths.{
  Funcs, buyer_abort_func, seller_reject_func, seller_delivered_func, buyer_confirm_func,
  seller_timeout_func, buyer_dispute_func, seller_forfeit_func, seller_counter_func,
  buyer_open_func, buyer_timeout_func, seller_accept_func, take_choice,
}

abbrev pub full : Ledger
full = record { balance = 18446744073709551615; paid = [] }

abbrev pub paid_to : AccountAddress → Amount → Ledger
paid_to a x = record { balance = 18446744073709551615 - x; paid = (a, x) ∷ [] }

module _ (vendor buyer : AccountAddress) (value : Amount) where
  -- The world of the test: one purchase, in a state and with a time stamp, and what was paid.
  abbrev pub at : State → ℕ → Ledger → Escrow ledger_host
  at s time l = record {
    state = record {
      vendor = vendor;
      timeout = 1;
      contracts =
          record {
            commit = 0;
            timestamp = time;
            item = 0;
            seller_bit = false;
            notes = "";
            state = s;
            buyer = buyer;
          }
          ∷ [];
      listings = record { item_value = value; description = "Some item" } ∷ [];
    };
    chain = l;
  }

  abbrev pub Takes : Bool → Funcs → Escrow ledger_host → Escrow ledger_host → Type 0
  Takes b f w v = take_choice vendor buyer value b 0 ledger_host 0 f w ≡ (some (ok tt), v)

  module _ (small : value < 256) where
    pub Takes-open :
        (b : Bool)
        → Takes b buyer_open_func
            (at counter 40 full)
            (at failed 40 (paid_to (if b then vendor else buyer) (value * 2)))
    unfolding take_choice dispatch buyer_open_commitment pay xor
    Takes-open true = ground arith
    Takes-open false = ground arith

    module _ (b : Bool) where
      pub Takes-accept : Takes b seller_accept_func (at requested 0 full) (at accepted 10 full)
      unfolding take_choice dispatch seller_accept_contract
      Takes-accept = ground arith

      pub Takes-abort :
          Takes b buyer_abort_func (at requested 0 full) (at failed 0 (paid_to buyer value))
      unfolding take_choice dispatch buyer_abort pay
      Takes-abort = ground arith

      pub Takes-reject :
          Takes b seller_reject_func (at requested 0 full) (at rejected 0 (paid_to buyer value))
      unfolding take_choice dispatch seller_reject_contract pay
      Takes-reject = ground arith

      pub Takes-timeout :
          Takes b buyer_timeout_func (at accepted 10 full) (at failed 10 (paid_to buyer value))
      unfolding take_choice dispatch buyer_call_timeout pay
      Takes-timeout = ground arith

      pub Takes-delivered :
          Takes b seller_delivered_func (at accepted 10 full) (at delivered 20 full)
      unfolding take_choice dispatch seller_item_was_delivered
      Takes-delivered = ground arith

      pub Takes-confirm :
          Takes b buyer_confirm_func (at delivered 20 full) (at completed 20 (paid_to vendor value))
      unfolding take_choice dispatch buyer_confirm_delivery pay
      Takes-confirm = ground arith

      pub Takes-seller_timeout :
          (s : State) (time : ℕ)
          → (s ≡ delivered) ⊎ (s ≡ counter)
          → time < 100
          → Takes b seller_timeout_func (at s time full) (at completed time (paid_to vendor value))
      unfolding take_choice dispatch seller_call_timeout pay
      Takes-seller_timeout s time is_open early = ground arith

      pub Takes-dispute : Takes b buyer_dispute_func (at delivered 20 full) (at dispute 30 full)
      unfolding take_choice dispatch buyer_dispute_delivery
      Takes-dispute = ground arith

      pub Takes-dispute_timeout :
          Takes b buyer_timeout_func (at dispute 30 full) (at failed 30 (paid_to buyer (value * 2)))
      unfolding take_choice dispatch buyer_call_timeout pay
      Takes-dispute_timeout = ground arith

      pub Takes-forfeit :
          Takes b seller_forfeit_func
            (at dispute 30 full)
            (at failed 30 (paid_to buyer (value * 2)))
      unfolding take_choice dispatch seller_forfeit_dispute pay
      Takes-forfeit = ground arith

      pub Takes-counter : Takes b seller_counter_func (at dispute 30 full) (at counter 40 full)
      unfolding take_choice dispatch seller_counter_dispute
      Takes-counter = ground arith

-- ===== src/Commerce/Entry.antt =====
-- Commerce/src/lib.rs: the thirteen `#[receive]` entrypoints as one, with the test that the
-- attribute puts before an entrypoint which is not `payable`, and a transaction.
use bachelor_project.Prelude.{Bool, true, false, ◌||◌, Option, ◌==◌}
use bachelor_project.Contract.{
  Amount, ReceiveContext, Outcome, ok, err, trap, Reject, World, commit, Host,
}
use bachelor_project.Commerce.Types.{
  ContractState, Errors, BuyerRequestPurchaseParameter, IdParameter, BuyAbortParameter,
  BuyerIdCommitment, BuyerOpenCommitmentParameter, SellerCounterDispute, SellerUpdateListings,
}
use bachelor_project.Commerce.Buyer.{
  buyer_request_purchase, buyer_abort, buyer_confirm_delivery, buyer_dispute_delivery,
  buyer_call_timeout, buyer_open_commitment,
}
use bachelor_project.Commerce.Seller.{
  seller_call_timeout, seller_reject_contract, seller_accept_contract, seller_item_was_delivered,
  seller_forfeit_dispute, seller_counter_dispute, seller_update_listings,
}

-- A call with its parameter, `none` where the bytes do not parse.
pub data Call : Type 0 where
  request_purchase : Option BuyerRequestPurchaseParameter → Call
  abort : Option BuyAbortParameter → Call
  confirm_delivery : Option IdParameter → Call
  dispute_delivery : Option BuyerIdCommitment → Call
  timeout_by_buyer : Option IdParameter → Call
  open_commitment : Option BuyerOpenCommitmentParameter → Call
  timeout_by_seller : Option IdParameter → Call
  reject_contract : Option IdParameter → Call
  accept_contract : Option IdParameter → Call
  item_was_delivered : Option IdParameter → Call
  forfeit_dispute : Option IdParameter → Call
  counter_dispute : Option SellerCounterDispute → Call
  update_listings : Option SellerUpdateListings → Call

-- the attribute `payable`
abbrev pub is_payable : Call → Bool
is_payable (request_purchase _) = true
is_payable (dispute_delivery _) = true
is_payable (counter_dispute _) = true
is_payable _ = false

-- How a call may be rejected.
pub data Failure : Type 0 where
  not_payable : Failure
  errors : Errors → Failure
  reject : Reject → Failure

abbrev pub outcome :
    {E A W : Type 0} → (E → Failure) → Outcome E A × W → Outcome Failure (Unit {0}) × W
outcome f (ok _, w) = (ok tt, w)
outcome f (err e, w) = (err (f e), w)
outcome f (trap, w) = (trap, w)

module _ (h : Host) where
  abbrev pub Escrow : Type 0
  Escrow = World ContractState h.Chain

  unfoldable pub dispatch :
      ReceiveContext → Amount → Call → Escrow → Outcome Failure (Unit {0}) × Escrow
  dispatch ctx x (request_purchase p) w = outcome reject (buyer_request_purchase h ctx p x w)
  dispatch ctx x (abort p) w = outcome errors (buyer_abort h ctx p w)
  dispatch ctx x (confirm_delivery p) w = outcome errors (buyer_confirm_delivery h ctx p w)
  dispatch ctx x (dispute_delivery p) w = outcome errors (buyer_dispute_delivery h ctx p x w)
  dispatch ctx x (timeout_by_buyer p) w = outcome errors (buyer_call_timeout h ctx p w)
  dispatch ctx x (open_commitment p) w = outcome errors (buyer_open_commitment h ctx p w)
  dispatch ctx x (timeout_by_seller p) w = outcome errors (seller_call_timeout h ctx p w)
  dispatch ctx x (reject_contract p) w = outcome errors (seller_reject_contract h ctx p w)
  dispatch ctx x (accept_contract p) w = outcome errors (seller_accept_contract h ctx p w)
  dispatch ctx x (item_was_delivered p) w = outcome errors (seller_item_was_delivered h ctx p w)
  dispatch ctx x (forfeit_dispute p) w = outcome errors (seller_forfeit_dispute h ctx p w)
  dispatch ctx x (counter_dispute p) w = outcome errors (seller_counter_dispute h ctx p x w)
  dispatch ctx x (update_listings p) w = outcome errors (seller_update_listings h ctx p w)

  -- The amount is credited before the entrypoint runs.
  abbrev pub credited : Amount → Escrow → Escrow
  credited x w = record w { chain = h.credit x w.chain }

  unfoldable pub receive :
      ReceiveContext → Amount → Call → Escrow → Outcome Failure (Unit {0}) × Escrow
  receive ctx x call w = elim (is_payable call || x == 0) [
    | true ↦ dispatch ctx x call (credited x w)
    | false ↦ (err not_payable, w)
  ]

  unfoldable pub transact : ReceiveContext → Amount → Call → Escrow → Escrow
  transact ctx x call w = commit w (receive ctx x call w)

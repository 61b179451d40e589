-- ===== src/Commerce/Rejections.antt =====
-- Calls to the escrow of Commerce/src/lib.rs that fail: what they leave behind, and when a timeout
-- is refused.
use bachelor_project.Prelude.{
  ◌+◌, ◌<◌, ◌≡◌, ◌⊎◌, ◌↔◌, inl, inr, refl, true, ◌||◌, ◌==◌, some, u64_mod, Bool-cases, arith,
}
use bachelor_project.Contract.{Amount, ReceiveContext, ok, err, Host, HostLaws, usize}
use bachelor_project.Commerce.Types.{
  IdParameter, Purchase, Item, delivered, counter, matches_account, purchase_at, listing_at,
}
use bachelor_project.Commerce.Buyer.{
  buyer_request_purchase, buyer_abort, buyer_confirm_delivery, buyer_dispute_delivery,
  buyer_call_timeout, buyer_open_commitment,
}
use bachelor_project.Commerce.Seller.{
  seller_call_timeout, seller_reject_contract, seller_accept_contract, seller_item_was_delivered,
  seller_forfeit_dispute, seller_counter_dispute, seller_update_listings,
}
use bachelor_project.Commerce.Entry.{
  Call, request_purchase, Failure, Escrow, credited, is_payable, dispatch, receive,
}

module _ (h : Host) (ctx : ReceiveContext) (x : Amount) (w : Escrow h) where
  dispatch-err :
      (call : Call) {f : Failure}
      → (dispatch h ctx x call w).0 ≡ err f
      → (dispatch h ctx x call w).1 ≡ w
  unfolding dispatch buyer_request_purchase buyer_abort buyer_confirm_delivery
      buyer_dispute_delivery buyer_call_timeout buyer_open_commitment seller_call_timeout
      seller_reject_contract seller_accept_contract seller_item_was_delivered seller_forfeit_dispute
      seller_counter_dispute seller_update_listings
  dispatch-err (request_purchase p) e = ground arith
  dispatch-err _ e = ground arith

-- A call that is rejected, by its checks or because it may not be sent an amount, has written
-- nothing to the contract's state and has made no transfer.
pub receive-err_unchanged :
    (h : Host) (laws : HostLaws h) (ctx : ReceiveContext) (x : Amount) (call : Call) (w : Escrow h)
    {f : Failure}
    → (receive h ctx x call w).0 ≡ err f
    → ((receive h ctx x call w).1.state ≡ w.state)
      × (h.transfers (receive h ctx x call w).1.chain ≡ h.transfers w.chain)
unfolding receive
receive-err_unchanged h laws ctx x call w e = elim (Bool-cases (is_payable call || x == 0)) [
  | inl fine ↦
      rw (fine, receive, dispatch-err h ctx x (credited h x w) call (rw (fine, receive) at e))
        (refl, laws.credit_transfers x w.chain)
  | inr refused ↦ rw (refused, receive) (refl, refl)
]

module _ (h : Host) (ctx : ReceiveContext) (w : Escrow h) (parameter : IdParameter) {p : Purchase}
    {l : Item} (found : purchase_at (usize parameter.id) w ≡ some p)
    (listed : listing_at (usize p.item) w ≡ some l)
    (no_wrap : p.timestamp + w.state.timeout < u64_mod) (room : p.timestamp + 10 < u64_mod) where
  -- A seller who may call a timeout, too, succeeds exactly when the escrow was set up with a
  -- timeout below 10 ms, whatever the time of the call is.
  pub seller_call_timeout_iff :
      matches_account ctx.sender w.state.vendor ≡ true
      → (p.state ≡ delivered) ⊎ (p.state ≡ counter)
      → ((seller_call_timeout h ctx (some parameter) w).0 ≡ ok tt) ↔ (w.state.timeout < 10)
  unfolding seller_call_timeout
  seller_call_timeout_iff sender pending = (λ e. ground arith, λ short. ground arith)

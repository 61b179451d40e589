-- ===== src/Commerce/Effect/Calls.antt =====
-- Every successful call to the escrow of Commerce/src/lib.rs has one of the three effects.
use mathlib.Core.Path.{subst}
use bachelor_project.Prelude.{
  ==_iff, sym, ℕ, ◌≡◌, refl, inl, inr, true, false, ◌||◌, Option, none, some, u64, ◌*◌, ◌==◌,
  Option-cases, Bool-cases, arith,
}
use bachelor_project.Contract.{
  Amount, ReceiveContext, Address-cases, Outcome, err, trap, ok, usize, Host,
}
use bachelor_project.Commerce.Types.{
  requested, Errors, BuyerRequestPurchaseParameter, SellerUpdateListings, listing_at,
}
use bachelor_project.Commerce.Buyer.{buyer_request_purchase}
use bachelor_project.Commerce.Seller.{seller_update_listings}
use bachelor_project.Commerce.Entry.{
  Call, request_purchase, abort, confirm_delivery, dispute_delivery, timeout_by_buyer,
  open_commitment, timeout_by_seller, reject_contract, accept_contract, item_was_delivered,
  forfeit_dispute, counter_dispute, update_listings, is_payable, Escrow, credited, dispatch,
  receive, Failure, outcome, errors, reject,
}
use bachelor_project.Commerce.Lifecycle.{Moved}
use bachelor_project.Commerce.Lifecycle.ByBuyer.{
  abort-Fits, confirm_delivery-Fits, dispute_delivery-Fits, call_timeout-Fits, open_commitment-Fits,
}
use bachelor_project.Commerce.Lifecycle.BySeller
use bachelor_project.Commerce.Effect.{Effect, Enters, Relists, named_item, enters, moves, relists}

module _ (h : Host) (ctx : ReceiveContext) where
  request_purchase-Enters :
      (parameter : Option BuyerRequestPurchaseParameter) (x : Amount) (w : Escrow h) {i : ℕ}
      → (buyer_request_purchase h ctx parameter x w).0 ≡ ok i
      → Enters h ctx
          (named_item (request_purchase parameter))
          x
          w
          (buyer_request_purchase h ctx parameter x w).1
  unfolding buyer_request_purchase
  request_purchase-Enters none x w e = cc
  request_purchase-Enters (some p) x w e = elim (Option-cases (listing_at (usize p.item) w)) [
    | inl missing ↦ ground arith
    | inr (l, there) ↦ elim (Address-cases ctx.sender) [
      | inl (a, sender) ↦ record {
        buyer = a;
        entry = record {
          commit = 0;
          timestamp = p.timestamp;
          item = 0;
          seller_bit = false;
          notes = p.info;
          state = requested;
          buyer = a;
        };
        by_account = sender;
        price_paid = (l, there, ground arith);
        state_new = refl;
        item_new = refl;
        buyer_new = refl;
        pushed = ground arith;
      }
      | inr (i, j, sender) ↦ ground arith
    ]
  ]

  update_listings-Relists :
      (parameter : Option SellerUpdateListings) (n : ℕ) (x : Amount) (w : Escrow h)
      → (seller_update_listings h ctx parameter w).0 ≡ ok tt
      → Relists h ctx n x w (seller_update_listings h ctx parameter w).1
  unfolding seller_update_listings
  update_listings-Relists none n x w e = cc
  update_listings-Relists (some p) n x w e = record {
    place = usize p.item_id;
    item = record { item_value = u64 (p.value * 1000000000); description = p.description };
    by_vendor = ground arith;
    no_purchase = ground arith;
    relisted = ground arith;
  }

-- A fact about the world after success, carried through `outcome`.
outcome-success :
    {E A W : Type 0} (P : W → Type 0) (f : E → Failure) (r : Outcome E A × W)
    → ((a : A) → r.0 ≡ ok a → P r.1)
    → (outcome f r).0 ≡ ok tt
    → P (outcome f r).1
outcome-success P f (ok a, w) keep e = keep a refl
outcome-success P f (err x, w) keep e = cc
outcome-success P f (trap, w) keep e = cc

module _ (h : Host) (ctx : ReceiveContext) where
  -- A call that brings no amount.
  moves_free :
      (n : ℕ) (x : Amount) (w v : Escrow h)
      → (x == 0) ≡ true
      → Moved h ctx.sender n 0 w v
      → Effect h ctx n x w v
  moves_free n x w v e m =
      moves (subst (λ (y : ℕ). Moved h ctx.sender n y w v) (sym ((==_iff x 0).0 e)) m)

  module _ (x : Amount) (w : Escrow h) where
    abbrev Done : Call → Type 0
    Done call =
        (is_payable call || x == 0) ≡ true
        → (dispatch h ctx x call w).0 ≡ ok tt
        → Effect h ctx (named_item call) x w (dispatch h ctx x call w).1

    free :
        {A : Type 0} (n : ℕ) (r : Outcome Errors A × Escrow h)
        → (x == 0) ≡ true
        → ((a : A) → r.0 ≡ ok a → Moved h ctx.sender n 0 w r.1)
        → (outcome errors r).0 ≡ ok tt
        → Effect h ctx n x w (outcome errors r).1
    free n r z fits =
        outcome-success (Effect h ctx n x w) errors r (λ a e. moves_free n x w r.1 z (fits a e))

    dispatch-Effect : (call : Call) → Done call
    unfolding dispatch
    dispatch-Effect (request_purchase p) z =
        outcome-success (Effect h ctx (named_item (request_purchase p)) x w) reject _
          (λ a e. enters (request_purchase-Enters h ctx p x w e))
    dispatch-Effect (abort p) z = free _ _ z (λ a. abort-Fits h ctx w p)
    dispatch-Effect (confirm_delivery p) z = free 0 _ z (λ a. confirm_delivery-Fits h ctx w 0 p)
    dispatch-Effect (dispute_delivery p) z =
        outcome-success (Effect h ctx 0 x w) errors _
          (λ a e. moves (dispute_delivery-Fits h ctx w 0 p x e))
    dispatch-Effect (timeout_by_buyer p) z = free 0 _ z (λ a. call_timeout-Fits h ctx w 0 p)
    dispatch-Effect (open_commitment p) z = free 0 _ z (λ a. open_commitment-Fits h ctx w 0 p)
    dispatch-Effect (timeout_by_seller p) z =
        free 0 _ z (λ a. BySeller.call_timeout-Fits h ctx w 0 p)
    dispatch-Effect (reject_contract p) z =
        free 0 _ z (λ a. BySeller.reject_contract-Fits h ctx w 0 p)
    dispatch-Effect (accept_contract p) z =
        free 0 _ z (λ a. BySeller.accept_contract-Fits h ctx w 0 p)
    dispatch-Effect (item_was_delivered p) z =
        free 0 _ z (λ a. BySeller.item_was_delivered-Fits h ctx w 0 p)
    dispatch-Effect (forfeit_dispute p) z =
        free 0 _ z (λ a. BySeller.forfeit_dispute-Fits h ctx w 0 p)
    dispatch-Effect (counter_dispute p) z =
        outcome-success (Effect h ctx 0 x w) errors _
          (λ a e. moves (BySeller.counter_dispute-Fits h ctx w 0 p x e))
    dispatch-Effect (update_listings p) z =
        outcome-success (Effect h ctx 0 x w) errors _
          (λ a e. relists (update_listings-Relists h ctx p 0 x w e))

  -- A call that succeeds has entered one purchase at the price of the item that was asked for,
  -- moved one purchase along an arrow of its life and settled as that arrow says, or changed one
  -- listing while there was no purchase; it has done nothing else to the state or the chain, on
  -- which the amount sent along was credited first.
  pub receive-Effect :
      (x : Amount) (call : Call) (w : Escrow h)
      → (receive h ctx x call w).0 ≡ ok tt
      → Effect h ctx (named_item call) x (credited h x w) (receive h ctx x call w).1
  unfolding receive
  receive-Effect x call w e = elim (Bool-cases (is_payable call || x == 0)) [
    | inl fine ↦
        rw (fine, receive) (dispatch-Effect x (credited h x w) call fine (rw (fine, receive) at e))
    | inr refused ↦ let e' : _ = rw (refused, receive) at e in cc
  ]

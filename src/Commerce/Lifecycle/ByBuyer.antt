-- ===== src/Commerce/Lifecycle/ByBuyer.antt =====
-- The buyer's entrypoints of Commerce/src/lib.rs, each against the arrow that it takes.
use mathlib.Core.Bool.{xor}
use bachelor_project.Prelude.{ℕ, ◌≡◌, inl, inr, Option, none, some, Option-cases, Bool-cases, arith}
use bachelor_project.Contract.{Amount, ReceiveContext, ok, World, usize, Host}
use bachelor_project.Commerce.Types.{
  completed, dispute, failed, ContractState, is_state, tsfix, IdParameter, BuyAbortParameter,
  BuyerIdCommitment, BuyerOpenCommitmentParameter, purchase_at, listing_at,
}
use bachelor_project.Commerce.Buyer.{
  buyer_abort, buyer_confirm_delivery, buyer_dispute_delivery, buyer_call_timeout,
  buyer_open_commitment,
}
use bachelor_project.Commerce.Lifecycle.{
  Moved, move, buyer, seller, aborted, overdue, confirmed, disputed, unanswered, opened, nothing,
  unlisted, listed, sight,
}

-- The item that an abort names.
abbrev pub named_by : Option BuyAbortParameter → ℕ
named_by none = 0
named_by (some parameter) = usize parameter.item

module _ (h : Host) (ctx : ReceiveContext) (w : World ContractState h.Chain) where
  pub abort-Fits :
      (parameter : Option BuyAbortParameter)
      → (buyer_abort h ctx parameter w).0 ≡ ok tt
      → Moved h ctx.sender (named_by parameter) 0 w (buyer_abort h ctx parameter w).1
  unfolding buyer_abort
  abort-Fits none e = cc
  abort-Fits (some parameter) e = elim (Option-cases (purchase_at (usize parameter.id) w)) [
    | inl missing ↦ ground arith
    | inr (p, found) ↦ elim (Option-cases (listing_at (usize parameter.item) w)) [
      | inl missing ↦ ground arith
      | inr (l, there) ↦ (
        move (usize parameter.id) p (record p { state = failed }) l.item_value aborted,
        ground arith,
      )
    ]
  ]

module _ (h : Host) (ctx : ReceiveContext) (w : World ContractState h.Chain) (n : ℕ) where
  pub confirm_delivery-Fits :
      (parameter : Option IdParameter)
      → (buyer_confirm_delivery h ctx parameter w).0 ≡ ok tt
      → Moved h ctx.sender n 0 w (buyer_confirm_delivery h ctx parameter w).1
  unfolding buyer_confirm_delivery
  confirm_delivery-Fits none e = cc
  confirm_delivery-Fits (some parameter) e = elim (sight w (usize parameter.id)) [
    | nothing missing ↦ ground arith
    | unlisted p found missing ↦ ground arith
    | listed p l found there ↦ (
      move (usize parameter.id) p (record p { state = completed }) l.item_value confirmed,
      ground arith,
    )
  ]

  pub dispute_delivery-Fits :
      (parameter : Option BuyerIdCommitment) (x : Amount)
      → (buyer_dispute_delivery h ctx parameter x w).0 ≡ ok tt
      → Moved h ctx.sender n x w (buyer_dispute_delivery h ctx parameter x w).1
  unfolding buyer_dispute_delivery
  dispute_delivery-Fits none x e = cc
  dispute_delivery-Fits (some parameter) x e = elim (sight w (usize parameter.id)) [
    | nothing missing ↦ ground arith
    | unlisted p found missing ↦ ground arith
    | listed p l found there ↦ (
      move (usize parameter.id) p
          (record p {
            state = dispute;
            commit = parameter.commitment;
            timestamp = tsfix p.timestamp;
          })
          l.item_value disputed,
      ground arith,
    )
  ]

  pub call_timeout-Fits :
      (parameter : Option IdParameter)
      → (buyer_call_timeout h ctx parameter w).0 ≡ ok tt
      → Moved h ctx.sender n 0 w (buyer_call_timeout h ctx parameter w).1
  unfolding buyer_call_timeout
  call_timeout-Fits none e = cc
  call_timeout-Fits (some parameter) e = elim (sight w (usize parameter.id)) [
    | nothing missing ↦ ground arith
    | unlisted p found missing ↦ ground arith
    | listed p l found there ↦ elim (Bool-cases (is_state p.state dispute)) [
      | inl disputed_before ↦ (
        move (usize parameter.id) p (record p { state = failed }) l.item_value unanswered,
        ground arith,
      )
      | inr accepted_before ↦ (
        move (usize parameter.id) p (record p { state = failed }) l.item_value overdue,
        ground arith,
      )
    ]
  ]

  pub open_commitment-Fits :
      (parameter : Option BuyerOpenCommitmentParameter)
      → (buyer_open_commitment h ctx parameter w).0 ≡ ok tt
      → Moved h ctx.sender n 0 w (buyer_open_commitment h ctx parameter w).1
  unfolding buyer_open_commitment
  open_commitment-Fits none e = cc
  open_commitment-Fits (some parameter) e = elim (sight w (usize parameter.id)) [
    | nothing missing ↦ ground arith
    | unlisted p found missing ↦ ground arith
    | listed p l found there ↦ elim (Bool-cases (xor p.seller_bit parameter.buyer_bit)) [
      | inl differ ↦ (
        move (usize parameter.id) p (record p { state = failed }) l.item_value (opened seller),
        ground arith,
      )
      | inr same ↦ (
        move (usize parameter.id) p (record p { state = failed }) l.item_value (opened buyer),
        ground arith,
      )
    ]
  ]

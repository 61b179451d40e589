-- ===== src/Commerce/Lifecycle/BySeller.antt =====
-- The seller's entrypoints of Commerce/src/lib.rs, each against the arrow that it takes.
use bachelor_project.Prelude.{ℕ, ◌≡◌, inl, inr, Option, none, some, Option-cases, Bool-cases, arith}
use bachelor_project.Contract.{Amount, ReceiveContext, ok, World, usize, Host}
use bachelor_project.Commerce.Types.{
  accepted, rejected, delivered, completed, counter, failed, ContractState, is_state, tsfix,
  IdParameter, SellerCounterDispute, purchase_at,
}
use bachelor_project.Commerce.Seller.{
  seller_call_timeout, seller_reject_contract, seller_accept_contract, seller_item_was_delivered,
  seller_forfeit_dispute, seller_counter_dispute,
}
use bachelor_project.Commerce.Lifecycle.{
  Moved, move, declined, agreed, sent, unconfirmed, forfeited, countered, unopened, nothing,
  unlisted, listed, sight,
}

module _ (h : Host) (ctx : ReceiveContext) (w : World ContractState h.Chain) (n : ℕ) where
  pub call_timeout-Fits :
      (parameter : Option IdParameter)
      → (seller_call_timeout h ctx parameter w).0 ≡ ok tt
      → Moved h ctx.sender n 0 w (seller_call_timeout h ctx parameter w).1
  unfolding seller_call_timeout
  call_timeout-Fits none e = cc
  call_timeout-Fits (some parameter) e = elim (sight w (usize parameter.id)) [
    | nothing missing ↦ ground arith
    | unlisted p found missing ↦ ground arith
    | listed p l found there ↦ elim (Bool-cases (is_state p.state delivered)) [
      | inl delivered_before ↦ (
        move (usize parameter.id) p (record p { state = completed }) l.item_value unconfirmed,
        ground arith,
      )
      | inr countered_before ↦ (
        move (usize parameter.id) p (record p { state = completed }) l.item_value unopened,
        ground arith,
      )
    ]
  ]

  pub reject_contract-Fits :
      (parameter : Option IdParameter)
      → (seller_reject_contract h ctx parameter w).0 ≡ ok tt
      → Moved h ctx.sender n 0 w (seller_reject_contract h ctx parameter w).1
  unfolding seller_reject_contract
  reject_contract-Fits none e = cc
  reject_contract-Fits (some parameter) e = elim (sight w (usize parameter.id)) [
    | nothing missing ↦ ground arith
    | unlisted p found missing ↦ ground arith
    | listed p l found there ↦ (
      move (usize parameter.id) p (record p { state = rejected }) l.item_value declined,
      ground arith,
    )
  ]

  pub accept_contract-Fits :
      (parameter : Option IdParameter)
      → (seller_accept_contract h ctx parameter w).0 ≡ ok tt
      → Moved h ctx.sender n 0 w (seller_accept_contract h ctx parameter w).1
  unfolding seller_accept_contract
  accept_contract-Fits none e = cc
  accept_contract-Fits (some parameter) e =
      elim (Option-cases (purchase_at (usize parameter.id) w)) [
        | inl missing ↦ ground arith
        | inr (p, found) ↦ (
          move (usize parameter.id) p (record p { state = accepted; timestamp = tsfix p.timestamp })
              0 agreed,
          ground arith,
        )
      ]

  pub item_was_delivered-Fits :
      (parameter : Option IdParameter)
      → (seller_item_was_delivered h ctx parameter w).0 ≡ ok tt
      → Moved h ctx.sender n 0 w (seller_item_was_delivered h ctx parameter w).1
  unfolding seller_item_was_delivered
  item_was_delivered-Fits none e = cc
  item_was_delivered-Fits (some parameter) e =
      elim (Option-cases (purchase_at (usize parameter.id) w)) [
        | inl missing ↦ ground arith
        | inr (p, found) ↦ (
          move (usize parameter.id) p
              (record p { state = delivered; timestamp = tsfix p.timestamp }) 0 sent,
          ground arith,
        )
      ]

  pub forfeit_dispute-Fits :
      (parameter : Option IdParameter)
      → (seller_forfeit_dispute h ctx parameter w).0 ≡ ok tt
      → Moved h ctx.sender n 0 w (seller_forfeit_dispute h ctx parameter w).1
  unfolding seller_forfeit_dispute
  forfeit_dispute-Fits none e = cc
  forfeit_dispute-Fits (some parameter) e = elim (sight w (usize parameter.id)) [
    | nothing missing ↦ ground arith
    | unlisted p found missing ↦ ground arith
    | listed p l found there ↦ (
      move (usize parameter.id) p (record p { state = failed }) l.item_value forfeited,
      ground arith,
    )
  ]

  pub counter_dispute-Fits :
      (parameter : Option SellerCounterDispute) (x : Amount)
      → (seller_counter_dispute h ctx parameter x w).0 ≡ ok tt
      → Moved h ctx.sender n x w (seller_counter_dispute h ctx parameter x w).1
  unfolding seller_counter_dispute
  counter_dispute-Fits none x e = cc
  counter_dispute-Fits (some parameter) x e = elim (sight w (usize parameter.id)) [
    | nothing missing ↦ ground arith
    | unlisted p found missing ↦ ground arith
    | listed p l found there ↦ (
      move (usize parameter.id) p
          (record p {
            state = counter;
            timestamp = tsfix p.timestamp;
            seller_bit = parameter.random_bit;
          })
          l.item_value countered,
      ground arith,
    )
  ]

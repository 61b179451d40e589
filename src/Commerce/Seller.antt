-- ===== src/Commerce/Seller.antt =====
-- Commerce/src/lib.rs, "SELLER FUNCTIONS".
use bachelor_project.Prelude.{◌+◌, ◌*◌, ◌||◌, Option, u64, ltb, ◌==◌, length}
use bachelor_project.Contract.{
  Amount, ReceiveContext, World, Receive, pure, gets, unwrap, or_bail, ensure, modify, usize, ◌>>=◌,
  ◌>>◌, Host, transfer,
}
use bachelor_project.Commerce.Types.{
  requested, accepted, rejected, delivered, completed, dispute, counter, failed, is_state,
  ContractState, Errors, matching_account_error, state_error, matching_item_value_error,
  timestamp_error, tsfix, IdParameter, SellerCounterDispute, SellerUpdateListings, matches_account,
  purchase_at, listing_at, write_purchase, write_listing,
}

module _ (h : Host) where
  abbrev Call : Type 0
  Call = Receive (World ContractState h.Chain) Errors (Unit {0})

  unfoldable pub seller_call_timeout : ReceiveContext → Option IdParameter → Call
  seller_call_timeout ctx parameter = do
    parameters ← or_bail parameter Errors.parse_error
    let id = usize parameters.id
    purchase ← unwrap (← gets (purchase_at id))
    listing ← unwrap (← gets (listing_at (usize purchase.item)))
    vendor ← gets (λ w. w.state.vendor)
    ensure (matches_account ctx.sender vendor) matching_account_error
    ensure (is_state purchase.state delivered || is_state purchase.state counter) state_error
    timeout ← gets (λ w. w.state.timeout)
    ensure (ltb (u64 (purchase.timestamp + timeout)) (tsfix purchase.timestamp)) timestamp_error
    modify (write_purchase id (record purchase { state = completed }))
    transfer h vendor listing.item_value
    pure tt

  unfoldable pub seller_reject_contract : ReceiveContext → Option IdParameter → Call
  seller_reject_contract ctx parameter = do
    parameters ← or_bail parameter Errors.parse_error
    let id = usize parameters.id
    purchase ← unwrap (← gets (purchase_at id))
    listing ← unwrap (← gets (listing_at (usize purchase.item)))
    vendor ← gets (λ w. w.state.vendor)
    ensure (matches_account ctx.sender vendor) matching_account_error
    ensure (is_state purchase.state requested) state_error
    modify (write_purchase id (record purchase { state = rejected }))
    transfer h purchase.buyer listing.item_value
    pure tt

  unfoldable pub seller_accept_contract : ReceiveContext → Option IdParameter → Call
  seller_accept_contract ctx parameter = do
    parameters ← or_bail parameter Errors.parse_error
    let id = usize parameters.id
    purchase ← unwrap (← gets (purchase_at id))
    vendor ← gets (λ w. w.state.vendor)
    ensure (matches_account ctx.sender vendor) matching_account_error
    ensure (is_state purchase.state requested) state_error
    modify (
        write_purchase id
          (record purchase { state = accepted; timestamp = tsfix purchase.timestamp }))
    pure tt

  unfoldable pub seller_item_was_delivered : ReceiveContext → Option IdParameter → Call
  seller_item_was_delivered ctx parameter = do
    parameters ← or_bail parameter Errors.parse_error
    let id = usize parameters.id
    purchase ← unwrap (← gets (purchase_at id))
    vendor ← gets (λ w. w.state.vendor)
    ensure (matches_account ctx.sender vendor) matching_account_error
    ensure (is_state purchase.state accepted) state_error
    modify (
        write_purchase id
          (record purchase { state = delivered; timestamp = tsfix purchase.timestamp }))
    pure tt

  unfoldable pub seller_forfeit_dispute : ReceiveContext → Option IdParameter → Call
  seller_forfeit_dispute ctx parameter = do
    parameters ← or_bail parameter Errors.parse_error
    let id = usize parameters.id
    purchase ← unwrap (← gets (purchase_at id))
    listing ← unwrap (← gets (listing_at (usize purchase.item)))
    vendor ← gets (λ w. w.state.vendor)
    ensure (matches_account ctx.sender vendor) matching_account_error
    ensure (is_state purchase.state dispute) state_error
    modify (write_purchase id (record purchase { state = failed }))
    transfer h purchase.buyer (u64 (listing.item_value * 2))
    pure tt

  unfoldable pub seller_counter_dispute :
      ReceiveContext → Option SellerCounterDispute → Amount → Call
  seller_counter_dispute ctx parameter amount = do
    parameters ← or_bail parameter Errors.parse_error
    let id = usize parameters.id
    purchase ← unwrap (← gets (purchase_at id))
    vendor ← gets (λ w. w.state.vendor)
    listing ← unwrap (← gets (listing_at (usize purchase.item)))
    ensure (matches_account ctx.sender vendor) matching_account_error
    ensure (is_state purchase.state dispute) state_error
    ensure (amount == listing.item_value) matching_item_value_error
    modify (
        write_purchase id (record purchase {
          state = counter;
          timestamp = tsfix purchase.timestamp;
          seller_bit = parameters.random_bit;
        }))
    pure tt

  -- Prices are fixed once there is a purchase.
  unfoldable pub seller_update_listings : ReceiveContext → Option SellerUpdateListings → Call
  seller_update_listings ctx parameter = do
    parameters ← or_bail parameter Errors.parse_error
    vendor ← gets (λ w. w.state.vendor)
    ensure (matches_account ctx.sender vendor) matching_account_error
    purchases ← gets (λ w. length w.state.contracts)
    ensure (purchases == 0) state_error
    let item = usize parameters.item_id
    unwrap (← gets (listing_at item))
    modify (
        write_listing item (record {
          item_value = u64 (parameters.value * 1000000000);
          description = parameters.description;
        }))
    pure tt

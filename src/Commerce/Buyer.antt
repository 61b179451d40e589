-- ===== src/Commerce/Buyer.antt =====
-- Commerce/src/lib.rs, "BUYER FUNCTIONS".
use bachelor_project.Prelude.{ℕ, ◌+◌, ◌*◌, false, ◌||◌, Option, u64, ltb, ◌==◌, if◌then◌else◌}
use mathlib.Core.Bool.{xor}
use bachelor_project.Contract.{
  AccountAddress, Amount, Address, account, contract, ReceiveContext, Reject, default_reject, World,
  Receive, pure, bail, gets, unwrap, or_bail, ensure, modify, usize, ◌>>=◌, ◌>>◌, Host, transfer,
}
use bachelor_project.Commerce.Types.{
  requested, accepted, delivered, completed, dispute, counter, failed, is_state, ContractState,
  Errors, matching_account_error, state_error, matching_item_value_error, timestamp_error,
  commit_error, tsfix, BuyerRequestPurchaseParameter, IdParameter, BuyAbortParameter,
  BuyerIdCommitment, BuyerOpenCommitmentParameter, matches_account, purchase_at, listing_at,
  write_purchase, push_purchase,
}

-- `match ctx.sender() { Address::Account(acc) => acc, _ => bail!() }`
abbrev sender_account : {W : Type 0} → Address → Receive W Reject AccountAddress
sender_account (account a) = pure a
sender_account (contract _ _) = bail default_reject

module _ (h : Host) where
  abbrev Call : Type 0 → Type 0
  Call E = Receive (World ContractState h.Chain) E (Unit {0})

  -- The purchase is entered with item 0, whatever item was asked and paid for, and the id that
  -- is returned is always 0.
  unfoldable pub buyer_request_purchase :
      ReceiveContext
      → Option BuyerRequestPurchaseParameter
      → Amount
      → Receive (World ContractState h.Chain) Reject ℕ
  buyer_request_purchase ctx parameter amount = do
    parameters ← or_bail parameter Reject.parse_error
    listing ← unwrap (← gets (listing_at (usize parameters.item)))
    ensure (amount == listing.item_value) default_reject
    sender ← sender_account ctx.sender
    modify (
        push_purchase (record {
          commit = 0;
          timestamp = parameters.timestamp;
          item = 0;
          seller_bit = false;
          notes = parameters.info;
          state = requested;
          buyer = sender;
        }))
    pure 0

  -- The amount that is paid back is that of the item which the caller names.
  unfoldable pub buyer_abort : ReceiveContext → Option BuyAbortParameter → Call Errors
  buyer_abort ctx parameter = do
    parameters ← or_bail parameter Errors.parse_error
    let id = usize parameters.id
    purchase ← unwrap (← gets (purchase_at id))
    listing ← unwrap (← gets (listing_at (usize parameters.item)))
    ensure (matches_account ctx.sender purchase.buyer) matching_account_error
    ensure (is_state purchase.state requested) state_error
    modify (write_purchase id (record purchase { state = failed }))
    transfer h purchase.buyer listing.item_value
    pure tt

  -- The listing is read only after the write.
  unfoldable pub buyer_confirm_delivery : ReceiveContext → Option IdParameter → Call Errors
  buyer_confirm_delivery ctx parameter = do
    parameters ← or_bail parameter Errors.parse_error
    let id = usize parameters.id
    purchase ← unwrap (← gets (purchase_at id))
    ensure (matches_account ctx.sender purchase.buyer) matching_account_error
    ensure (is_state purchase.state delivered) state_error
    modify (write_purchase id (record purchase { state = completed }))
    listing ← unwrap (← gets (listing_at (usize purchase.item)))
    vendor ← gets (λ w. w.state.vendor)
    transfer h vendor listing.item_value
    pure tt

  unfoldable pub buyer_dispute_delivery :
      ReceiveContext → Option BuyerIdCommitment → Amount → Call Errors
  buyer_dispute_delivery ctx parameter amount = do
    parameters ← or_bail parameter Errors.parse_error
    let id = usize parameters.id
    purchase ← unwrap (← gets (purchase_at id))
    listing ← unwrap (← gets (listing_at (usize purchase.item)))
    ensure (matches_account ctx.sender purchase.buyer) matching_account_error
    ensure (is_state purchase.state delivered) state_error
    ensure (listing.item_value == amount) matching_item_value_error
    modify (
        write_purchase id (record purchase {
          state = dispute;
          commit = parameters.commitment;
          timestamp = tsfix purchase.timestamp;
        }))
    pure tt

  unfoldable pub buyer_call_timeout : ReceiveContext → Option IdParameter → Call Errors
  buyer_call_timeout ctx parameter = do
    parameters ← or_bail parameter Errors.parse_error
    let id = usize parameters.id
    purchase ← unwrap (← gets (purchase_at id))
    listing ← unwrap (← gets (listing_at (usize purchase.item)))
    ensure (matches_account ctx.sender purchase.buyer) matching_account_error
    ensure (is_state purchase.state dispute || is_state purchase.state accepted) state_error
    timeout ← gets (λ w. w.state.timeout)
    ensure (ltb (u64 (purchase.timestamp + timeout)) (tsfix purchase.timestamp)) timestamp_error
    let payback =
        if is_state purchase.state dispute then u64 (listing.item_value * 2) else listing.item_value
    modify (write_purchase id (record purchase { state = failed }))
    transfer h purchase.buyer payback
    pure tt

  -- The nonce is not read, and only a commitment of 0 opens.
  unfoldable pub buyer_open_commitment :
      ReceiveContext → Option BuyerOpenCommitmentParameter → Call Errors
  buyer_open_commitment ctx parameter = do
    parameters ← or_bail parameter Errors.parse_error
    let id = usize parameters.id
    purchase ← unwrap (← gets (purchase_at id))
    listing ← unwrap (← gets (listing_at (usize purchase.item)))
    vendor ← gets (λ w. w.state.vendor)
    ensure (matches_account ctx.sender purchase.buyer) state_error
    ensure (is_state purchase.state counter) state_error
    ensure (purchase.commit == 0) commit_error
    modify (write_purchase id (record purchase { state = failed }))
    let winner = if xor purchase.seller_bit parameters.buyer_bit then vendor else purchase.buyer
    transfer h winner (u64 (2 * listing.item_value))
    pure tt

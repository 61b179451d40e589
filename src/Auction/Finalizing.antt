-- ===== src/Auction/Finalizing.antt =====
-- `auction_finalize` of Auction/src/lib.rs: the owner is paid the highest bid, every other bidder
-- is paid back, and the item is sold to the one highest bidder.
use bachelor_project.Prelude.{
  ◌+◌, ◌≤◌, ◌<◌, ◌≡◌, ◌∙◌, refl, sym, ap, inl, inr, true, false, Option, none, some, [], ◌∷◌, ◌++◌,
  ltb, arith,
}
use mathlib.Core.Path.{subst}
use mathlib.Core.List.{append_assoc, append-nil}
use bachelor_project.Contract.{AccountAddress, Amount, ReceiveContext, Outcome, ok, Host, HostLaws}
use bachelor_project.Contract.StateMap.{StateMap}
use bachelor_project.Auction.{
  sold, is_not_sold, FinalizeError, Auction, return_bids, auction_finalize,
}
use bachelor_project.Auction.Bids.{
  total, Below, OneTop, winner, refunds, refunds_of_Below, total-refunds,
}

module _ (h : Host) (laws : HostLaws h) where
  abbrev pub AllAccounts : StateMap Amount → Type 0
  AllAccounts [] = Unit {0}
  AllAccounts ((a, x) ∷ m) = (h.is_account a ≡ true) × AllAccounts m

  -- `r` is a success with value `v`, which has left the state and made the payments.
  pub record Settles {A : Type 0} (w : Auction h) (v : A) (payments : StateMap Amount)
      (r : Outcome FinalizeError A × Auction h) : Type 0 where
    pub value : r.0 ≡ ok v
    pub state_same : r.1.state ≡ w.state
    pub paid : h.transfers r.1.chain ≡ h.transfers w.chain ++ payments
    pub debited : h.self_balance r.1.chain + total payments ≡ h.self_balance w.chain

  -- The world after a payment that was made.
  abbrev paid_to : AccountAddress → Amount → Auction h → Auction h
  paid_to a x w = record w { chain = (h.invoke_transfer a x w.chain).1 }

  after_payment :
      {A : Type 0} (a : AccountAddress) (x : Amount) (w : Auction h) (v : A)
      (payments : StateMap Amount) (r : Outcome FinalizeError A × Auction h)
      → (h.invoke_transfer a x w.chain).0 ≡ none
      → Settles (paid_to a x w) v payments r
      → Settles w v ((a, x) ∷ payments) r
  after_payment a x w v payments r made s = record {
    value = s.value;
    state_same = s.state_same;
    paid =
        s.paid
        ∙ ap (λ t. t ++ payments) (laws.transfer_logged a x w.chain made)
        ∙ append_assoc (h.transfers w.chain) ((a, x) ∷ []) payments;
    debited = omega (arith, s.debited, laws.transfer_pays a x w.chain made);
  }

  nothing_paid : {A : Type 0} (w : Auction h) (v : A) → Settles w v [] (ok v, w)
  nothing_paid w v = record {
    value = refl;
    state_same = refl;
    paid = sym (append-nil (h.transfers w.chain));
    debited = omega arith;
  }

  return_bids_cheaper :
      (top : Amount) (a : AccountAddress) (x : Amount) (m : StateMap Amount)
      (remaining : Option (AccountAddress × Amount)) (w : Auction h)
      → x < top
      → (h.invoke_transfer a x w.chain).0 ≡ none
      → return_bids h top ((a, x) ∷ m) remaining w ≡ return_bids h top m remaining (paid_to a x w)
  unfolding return_bids
  return_bids_cheaper top a x m remaining w less made = ground arith

  -- Once the highest bid is found, all that follow are paid back.
  return_smaller :
      (top : Amount) (m : StateMap Amount) (remaining : Option (AccountAddress × Amount))
      (w : Auction h)
      → Below top m
      → AllAccounts m
      → total m ≤ h.self_balance w.chain
      → Settles w remaining m (return_bids h top m remaining w)
  unfolding return_bids
  return_smaller top [] remaining w b known enough = nothing_paid w remaining
  return_smaller top ((a, x) ∷ m) remaining w (less, b) (account, known) enough =
      let made = laws.transfer_made a x w.chain account (omega arith) in
      rw (return_bids_cheaper top a x m remaining w less made) (
        after_payment a x w remaining m _ made (
          return_smaller top m remaining (paid_to a x w) b known
            (omega (arith, laws.transfer_pays a x w.chain made))))

  return_bids_highest :
      (top : Amount) (a : AccountAddress) (x : Amount) (m : StateMap Amount) (w : Auction h)
      → x ≡ top
      → return_bids h top ((a, x) ∷ m) none w ≡ return_bids h top m (some (a, x)) w
  unfolding return_bids
  return_bids_highest top a x m w same = ground arith

  -- With one highest bid, the loop pays back all others and leaves that one.
  abbrev Leaves : Amount → StateMap Amount → Auction h → Type 0
  Leaves top m w =
      (a : AccountAddress) × (winner top m ≡ some a)
      × Settles w (some (a, top)) (refunds top m) (return_bids h top m none w)

  keeps_highest :
      (top : Amount) (a : AccountAddress) (x : Amount) (m : StateMap Amount) (w : Auction h)
      → x ≡ top
      → Below top m
      → AllAccounts m
      → total m ≤ h.self_balance w.chain
      → Leaves top ((a, x) ∷ m) w
  keeps_highest top a x m w same b known enough =
      let first : ltb x top ≡ false = ground arith in
      (
        a,
        rw first,
        rw (return_bids_highest top a x m w same, first, refunds_of_Below top m b)
            (subst (λ y. Settles w (some (a, y)) m (return_bids h top m (some (a, x)) w)) same
              (return_smaller top m (some (a, x)) w b known enough)),
      )

  refunds_first :
      (top : Amount) (a : AccountAddress) (x : Amount) (m : StateMap Amount) (w : Auction h)
      → x < top
      → (h.invoke_transfer a x w.chain).0 ≡ none
      → Leaves top m (paid_to a x w)
      → Leaves top ((a, x) ∷ m) w
  refunds_first top a x m w less made (b, wins, settled) =
      let later : ltb x top ≡ true = ground arith in
      (
        b,
        rw later wins,
        rw (return_bids_cheaper top a x m none w less made, later)
            (after_payment a x w (some (b, top)) (refunds top m) _ made settled),
      )

  return_all :
      (top : Amount) (m : StateMap Amount) (w : Auction h)
      → OneTop top m
      → AllAccounts m
      → total (refunds top m) ≤ h.self_balance w.chain
      → Leaves top m w
  return_all top [] w t known enough = absurd t
  return_all top ((a, x) ∷ m) w (inl (same, b)) (account, known) enough =
      keeps_highest top a x m w same b known (ground (arith, refunds_of_Below top m b))
  return_all top ((a, x) ∷ m) w (inr (less, t)) (account, known) enough =
      let covered : x + total (refunds top m) ≤ h.self_balance w.chain = ground arith in
      let made = laws.transfer_made a x w.chain account (omega arith) in
      refunds_first top a x m w less made (
        return_all top m (paid_to a x w) t known
          (omega (arith, laws.transfer_pays a x w.chain made)))

  -- The handler around its loop, where the owner has been paid and the loop left one bid.
  auction_finalize-return_bids :
      (ctx : ReceiveContext) (w : Auction h) (a : AccountAddress)
      → is_not_sold w.state.auction_state ≡ true
      → w.state.expiry < ctx.slot_time
      → 0 < h.self_balance w.chain
      → (h.invoke_transfer ctx.owner w.state.highest_bid w.chain).0 ≡ none
      → let r =
          return_bids h w.state.highest_bid w.state.bids none
            (paid_to ctx.owner w.state.highest_bid w) in
        r.0 ≡ ok (some (a, w.state.highest_bid))
        → auction_finalize h ctx w
          ≡ (ok tt, record r.1 { state = record r.1.state { auction_state = sold a } })
  unfolding auction_finalize
  auction_finalize-return_bids ctx w a unsold late funds made left = ground arith

  finished :
      (ctx : ReceiveContext) (w : Auction h)
      → is_not_sold w.state.auction_state ≡ true
      → w.state.expiry < ctx.slot_time
      → 0 < h.self_balance w.chain
      → (h.invoke_transfer ctx.owner w.state.highest_bid w.chain).0 ≡ none
      → w.state.highest_bid + total (refunds w.state.highest_bid w.state.bids) ≡ total w.state.bids
      → Leaves w.state.highest_bid w.state.bids (paid_to ctx.owner w.state.highest_bid w)
      → let (r, v) = auction_finalize h ctx w in
        (a : AccountAddress) × (winner w.state.highest_bid w.state.bids ≡ some a)
        × (r ≡ ok tt)
        × (v.state ≡ record w.state { auction_state = sold a })
        × (h.transfers v.chain
            ≡ h.transfers w.chain
              ++ (ctx.owner, w.state.highest_bid) ∷ refunds w.state.highest_bid w.state.bids)
        × (h.self_balance v.chain + total w.state.bids ≡ h.self_balance w.chain)
  finished ctx w unsold late funds made split (a, wins, s) =
      let all =
        after_payment ctx.owner w.state.highest_bid w (some (a, w.state.highest_bid))
          (refunds w.state.highest_bid w.state.bids) _ made s in
      rw (auction_finalize-return_bids ctx w a unsold late funds made s.value)
        (a, wins, refl, rw all.state_same, all.paid, omega (arith, all.debited))

  -- After its deadline an unsold auction with a highest bid, whose bidders and owner have accounts
  -- and whose balance covers the bids, is finalized: the item is sold to the holder of the highest
  -- bid, and the transfers are that bid to the owner and then every other bid to its bidder,
  -- which together are exactly the sum of the bids.
  pub auction_finalize-Settles :
      (ctx : ReceiveContext) (w : Auction h)
      → is_not_sold w.state.auction_state ≡ true
      → w.state.expiry < ctx.slot_time
      → 0 < w.state.highest_bid
      → OneTop w.state.highest_bid w.state.bids
      → AllAccounts w.state.bids
      → h.is_account ctx.owner ≡ true
      → total w.state.bids ≤ h.self_balance w.chain
      → let (r, v) = auction_finalize h ctx w in
        (a : AccountAddress) × (winner w.state.highest_bid w.state.bids ≡ some a)
        × (r ≡ ok tt)
        × (v.state ≡ record w.state { auction_state = sold a })
        × (h.transfers v.chain
            ≡ h.transfers w.chain
              ++ (ctx.owner, w.state.highest_bid) ∷ refunds w.state.highest_bid w.state.bids)
        × (h.self_balance v.chain + total w.state.bids ≡ h.self_balance w.chain)
  auction_finalize-Settles ctx w unsold late positive t known owner covered =
      let top = w.state.highest_bid in
      let split = total-refunds top w.state.bids t in
      let made = laws.transfer_made ctx.owner top w.chain owner (omega arith) in
      finished ctx w unsold late (omega arith) made split (
        return_all top w.state.bids (paid_to ctx.owner top w) t known
          (omega (arith, laws.transfer_pays ctx.owner top w.chain made)))

-- ===== src/Auction/History.antt =====
-- Histories of the auction of Auction/src/lib.rs: any bids and finalizations, by anyone, at any time.
use bachelor_project.Prelude.{
  ◌≤◌, ◌≡◌, refl, ◌⊎◌, inl, inr, true, false, Option, none, some, List, [], ◌∷◌, ◌==◌, Bool-cases,
  arith,
}
use bachelor_project.Contract.{
  AccountAddress, Amount, ReceiveContext, ok, commit, commit_keeps, Host, HostLaws,
}
use bachelor_project.Contract.StateMap.{StateMap, IsOrdered, insert-IsOrdered}
use bachelor_project.Auction.{is_not_sold, Auction, auction_bid, return_bids, auction_finalize}
use bachelor_project.Auction.Bids.{total, total-insert, IsTop, insert-IsTop}
use bachelor_project.Auction.Bidding.{Raises, auction_bid-Raises}

pub data Call : Type 0 where
  bid finalize : Call

module _ (h : Host) where
  abbrev pub credited : Amount → Auction h → Auction h
  credited x w = record w { chain = h.credit x w.chain }

  -- Only `bid` is payable.
  unfoldable pub transact : ReceiveContext → Amount → Call → Auction h → Auction h
  transact ctx x bid w = commit w (auction_bid h ctx x (credited x w))
  transact ctx x finalize w = elim (x == 0) [
    | true ↦ commit w (auction_finalize h ctx (credited 0 w))
    | false ↦ w
  ]

  -- The bids are in order, one of them is the highest, and until the sale the balance covers them.
  pub record IsSound (w : Auction h) : Type 0 where
    pub ordered : IsOrdered w.state.bids
    pub top : IsTop w.state.highest_bid w.state.bids
    pub covered :
        (is_not_sold w.state.auction_state ≡ false) ⊎ (total w.state.bids ≤ h.self_balance w.chain)

  return_bids_state :
      (top : Amount) (m : StateMap Amount) (r : Option (AccountAddress × Amount)) (w : Auction h)
      → (return_bids h top m r w).1.state ≡ w.state
  unfolding return_bids
  return_bids_state top [] r w = refl
  return_bids_state top ((a, x) ∷ m) r w = ground (
    arith,
    return_bids_state top m r (record w { chain = (h.invoke_transfer a x w.chain).1 }),
    return_bids_state top m (some (a, x)) w,
  )

  -- A finalization that succeeds changes nothing, for lack of funds, or sells.
  finalize_sells :
      (ctx : ReceiveContext) (w : Auction h)
      → (auction_finalize h ctx w).0 ≡ ok tt
      → let v = (auction_finalize h ctx w).1 in
        (v.state.bids ≡ w.state.bids)
        × (v.state.highest_bid ≡ w.state.highest_bid)
        × ((v ≡ w) ⊎ (is_not_sold v.state.auction_state ≡ false))
  unfolding auction_finalize
  finalize_sells ctx w e = ground (
    arith,
    return_bids_state w.state.highest_bid w.state.bids none
        (record w { chain = (h.invoke_transfer ctx.owner w.state.highest_bid w.chain).1 }),
  )

module _ (h : Host) (laws : HostLaws h) (ctx : ReceiveContext) where
  Raises-IsSound :
      (x : Amount) (w v : Auction h) → IsSound h w → Raises h ctx x (credited h x w) v → IsSound h v
  Raises-IsSound x w v s r =
      let bids = w.state.bids in
      let sums = total-insert r.bidder r.bid bids s.ordered in
      rw r.after (record {
        ordered = insert-IsOrdered r.bidder r.bid bids s.ordered;
        top = insert-IsTop w.state.highest_bid r.bid r.bidder bids r.higher s.top;
        covered = inr (elim s.covered [
          | inl gone ↦ cc r.unsold
          | inr enough ↦ omega (arith, sums, laws.credit_balance x w.chain)
        ]);
      })

  finalize-IsSound :
      (w : Auction h)
      → IsSound h w
      → (auction_finalize h ctx (credited h 0 w)).0 ≡ ok tt
      → IsSound h (auction_finalize h ctx (credited h 0 w)).1
  finalize-IsSound w s e =
      let (bids, highest, how) = finalize_sells h ctx (credited h 0 w) e in
      record {
        ordered = rw bids s.ordered;
        top = rw (bids, highest) s.top;
        covered = elim how [
          | inl same ↦ rw same (elim s.covered [
            | inl gone ↦ inl gone
            | inr enough ↦ inr (omega (arith, laws.credit_balance 0 w.chain))
          ])
          | inr gone ↦ inl gone
        ];
      }

  -- Whatever is called, by whom, when and with whatever amount, succeeding or not: the entries stay
  -- in order, exactly one bid is the recorded highest, or there is none and it is 0, and until
  -- the item is sold the balance covers the sum of all bids.
  pub transact-IsSound :
      (x : Amount) (call : Call) (w : Auction h) → IsSound h w → IsSound h (transact h ctx x call w)
  unfolding transact
  transact-IsSound x bid w s =
      commit_keeps (IsSound h) w (auction_bid h ctx x (credited h x w)) s (λ a e.
        Raises-IsSound x w (auction_bid h ctx x (credited h x w)).1 s
          (auction_bid-Raises h ctx x (credited h x w) e))
  transact-IsSound x finalize w s = elim (Bool-cases (x == 0)) [
    | inl free ↦
        rw (free, transact)
          (commit_keeps (IsSound h) w (auction_finalize h ctx (credited h 0 w)) s
            (λ a e. finalize-IsSound w s e))
    | inr paid ↦ rw (paid, transact) s
  ]

-- Calls one after the other, each by a caller, with an amount.
module _ (h : Host) where
  unfoldable pub run : List (ReceiveContext × Amount × Call) → Auction h → Auction h
  run [] w = w
  run ((ctx, x, call) ∷ calls) w = run calls (transact h ctx x call w)

  -- After any history of an auction that starts sound, of any calls by anyone, the entries are in
  -- order, exactly one bid is the recorded highest, or there is none and it is 0, and until the
  -- item is sold the balance covers the sum of all bids.
  pub run-IsSound :
      (laws : HostLaws h) (calls : List (ReceiveContext × Amount × Call)) (w : Auction h)
      → IsSound h w
      → IsSound h (run calls w)
  unfolding run
  run-IsSound laws [] w s = s
  run-IsSound laws ((ctx, x, call) ∷ calls) w s =
      run-IsSound laws calls (transact h ctx x call w) (transact-IsSound h laws ctx x call w s)

  transact_sold :
      (ctx : ReceiveContext) (x : Amount) (call : Call) (w : Auction h)
      → is_not_sold w.state.auction_state ≡ false
      → transact h ctx x call w ≡ w
  unfolding transact auction_bid auction_finalize
  transact_sold ctx x bid w s = ground arith
  transact_sold ctx x finalize w s = ground arith

  -- Once the item is sold, nothing changes the auction or its funds any more: no bid is accepted
  -- and it cannot be finalized a second time.
  pub run_sold :
      (calls : List (ReceiveContext × Amount × Call)) (w : Auction h)
      → is_not_sold w.state.auction_state ≡ false
      → run calls w ≡ w
  unfolding run
  run_sold [] w s = refl
  run_sold ((ctx, x, call) ∷ calls) w s = rw (transact_sold ctx x call w s) (run_sold calls w s)

-- ===== src/Auction/Bidding.antt =====
-- `auction_bid` of Auction/src/lib.rs: what an accepted bid changes.
use bachelor_project.Prelude.{◌+◌, ◌≤◌, ◌<◌, ◌≡◌, refl, ◌↔◌, inl, inr, true, u64, u64_mod, arith}
use bachelor_project.Contract.{
  AccountAddress, Amount, account, ReceiveContext, ok, Address-cases, Host,
}
use bachelor_project.Contract.StateMap.{insert}
use bachelor_project.Auction.{bid_of, is_not_sold, Auction, auction_bid}

-- The bid of `a` was raised to `y`, above the highest so far.
pub record Raises (h : Host) (ctx : ReceiveContext) (x : Amount) (w v : Auction h) : Type 0 where
  pub bidder : AccountAddress
  pub by_account : ctx.sender ≡ account bidder
  pub bid : Amount
  pub added : bid ≡ u64 (bid_of bidder w.state.bids + x)
  pub unsold : is_not_sold w.state.auction_state ≡ true
  pub in_time : ctx.slot_time ≤ w.state.expiry
  pub higher : w.state.highest_bid < bid
  pub after : v ≡ record w {
    state = record w.state { bids = insert bidder bid w.state.bids; highest_bid = bid };
  }

module _ (h : Host) (ctx : ReceiveContext) (x : Amount) (w : Auction h) where
  -- A bid that is accepted comes from an account, in time and before the sale; the bidder's sum,
  -- which exceeds the highest bid, is the new highest bid and the bidder's entry, and nothing
  -- else of the auction or the chain changes.
  pub auction_bid-Raises :
      (auction_bid h ctx x w).0 ≡ ok tt → Raises h ctx x w (auction_bid h ctx x w).1
  unfolding auction_bid
  auction_bid-Raises e = elim (Address-cases ctx.sender) [
    | inl (a, sender) ↦ record {
      bidder = a;
      by_account = sender;
      bid = u64 (bid_of a w.state.bids + x);
      added = refl;
      unsold = ground arith;
      in_time = ground arith;
      higher = ground arith;
      after = ground arith;
    }
    | inr (i, j, sender) ↦ ground arith
  ]

  -- In time, before the sale and where the sum fits in 64 bits, the bid of an account is accepted
  -- exactly when its sum exceeds the highest bid.
  pub auction_bid_iff :
      (a : AccountAddress)
      → ctx.sender ≡ account a
      → is_not_sold w.state.auction_state ≡ true
      → ctx.slot_time ≤ w.state.expiry
      → bid_of a w.state.bids + x < u64_mod
      → ((auction_bid h ctx x w).0 ≡ ok tt) ↔ (w.state.highest_bid < bid_of a w.state.bids + x)
  unfolding auction_bid
  auction_bid_iff a sender unsold in_time fits = (λ e. ground arith, λ higher. ground arith)

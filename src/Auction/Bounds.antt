-- ===== src/Auction/Bounds.antt =====
-- `auction_bid` of Auction/src/lib.rs: the sums of the bids do not wrap.
use bachelor_project.Prelude.{◌+◌, ◌≤◌, ◌<◌, ◌≡◌, inl, inr, [], ◌∷◌, u64_mod, arith, ap}
use bachelor_project.Contract.{AccountAddress, Amount, account, ReceiveContext, ok, Host, HostLaws}
use bachelor_project.Contract.StateMap.{StateMap, insert, lookup-insert_self}
use bachelor_project.Auction.{bid_of, Auction, auction_bid}
use bachelor_project.Auction.Bids.{total, total-insert}
use bachelor_project.Auction.Bidding.{auction_bid-Raises}
use bachelor_project.Auction.History.{credited, IsSound}

bid_of-le-total : (a : AccountAddress) (m : StateMap Amount) → bid_of a m ≤ total m
bid_of-le-total a [] = omega arith
bid_of-le-total a ((b, x) ∷ m) = ground (arith, bid_of-le-total a m)

-- In a sound auction, where the balance with the amount sent fits in 64 bits, an
-- accepted bid of an account adds exactly that amount to the account's bid and to the sum of all
-- bids, which then fits in 64 bits: no addition has wrapped.
pub auction_bid_exact :
    (h : Host) (laws : HostLaws h) (ctx : ReceiveContext) (x : Amount) (w : Auction h)
    (a : AccountAddress)
    → IsSound h w
    → ctx.sender ≡ account a
    → h.self_balance w.chain + x < u64_mod
    → (auction_bid h ctx x (credited h x w)).0 ≡ ok tt
    → let v = (auction_bid h ctx x (credited h x w)).1 in
      (bid_of a v.state.bids ≡ bid_of a w.state.bids + x)
      × (total v.state.bids ≡ total w.state.bids + x)
      × (total v.state.bids < u64_mod)
auction_bid_exact h laws ctx x w a s sender fits e =
    let r = auction_bid-Raises h ctx x (credited h x w) e in
    let same : r.bidder ≡ a = ground (arith, r.by_account) in
    let bids = w.state.bids in
    let covered : total bids ≤ h.self_balance w.chain = elim s.covered [
      | inl gone ↦ cc (r.unsold, gone)
      | inr enough ↦ enough
    ] in
    let exact : r.bid ≡ bid_of a bids + x =
      omega (
        arith,
        r.added,
        covered,
        fits,
        same,
        bid_of-le-total a bids,
        ap (λ b. bid_of b bids) same,
      ) in
    let sums = total-insert r.bidder r.bid bids s.ordered in
    let sum : total (insert r.bidder r.bid bids) ≡ total bids + x =
      omega (arith, sums, exact, ap (λ b. bid_of b bids) same) in
    rw r.after (
      ground (arith, same, exact, lookup-insert_self r.bidder r.bid bids),
      sum,
      omega (arith, sum, covered, fits),
    )

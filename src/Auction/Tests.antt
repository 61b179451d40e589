-- ===== src/Auction/Tests.antt =====
-- The auction of the tests of Auction/src/lib.rs, on the concrete host: account 1 bids 100 twice,
-- account 2 bids 300, account 3 owns the auction.
use bachelor_project.Prelude.{
  ℕ, ◌+◌, ◌<◌, ◌≡◌, ◌↔◌, refl, inl, inr, some, u64_mod, List, [], ◌∷◌, ◌++◌, arith,
}
use bachelor_project.Contract.{Amount, account, ReceiveContext, ok}
use bachelor_project.Contract.Ledger.{ledger_host, ledger_host-HostLaws, pay}
use bachelor_project.Auction.{
  not_sold_yet, sold, bid_of, Auction, auction_bid, return_bids, auction_finalize,
}
use bachelor_project.Auction.Bids.{winner, refunds, total}
use bachelor_project.Auction.Bidding.{Raises, auction_bid-Raises, auction_bid_iff}
use bachelor_project.Auction.Bounds.{auction_bid_exact}
use bachelor_project.Auction.Finalizing.{auction_finalize-Settles}
use bachelor_project.Auction.History.{
  credited, Call, bid, finalize, transact, run, IsSound, run-IsSound, run_sold,
}

abbrev by : ℕ → ℕ → ReceiveContext
by a t = record { sender = account a; owner = 3; slot_time = t }

abbrev start : Auction ledger_host
start = record {
  state = record {
    auction_state = not_sold_yet;
    highest_bid = 0;
    item = "Starry night by Van Gogh";
    expiry = 1;
    bids = [];
  };
  chain = record { balance = 0; paid = [] };
}

abbrev bids : List (ReceiveContext × Amount × Call)
bids =
    (by 1 0, 100, bid)
    ∷ (by 1 1, 100, bid)
    ∷ (by 2 1, 300, bid)
    ∷ (by 4 1, 0, finalize)
    ∷ (by 4 2, 500, bid)
    ∷ []

abbrev ended : Auction ledger_host
ended = record {
  state = record {
    auction_state = not_sold_yet;
    highest_bid = 300;
    item = "Starry night by Van Gogh";
    expiry = 1;
    bids = (1, 200) ∷ (2, 300) ∷ [];
  };
  chain = record { balance = 500; paid = [] };
}

run_bids : run ledger_host bids start ≡ ended
unfolding run transact auction_bid auction_finalize return_bids pay
run_bids = refl

run_finalize : run ledger_host ((by 4 2, 0, finalize) ∷ (by 2 2, 500, bid) ∷ []) ended ≡ record {
  state = record ended.state { auction_state = sold 2 };
  chain = record { balance = 0; paid = (3, 300) ∷ (1, 200) ∷ [] };
}
unfolding run transact auction_bid auction_finalize return_bids pay
run_finalize = refl

start-IsSound : IsSound ledger_host start
start-IsSound = record { ordered = tt; top = refl; covered = inr (omega arith) }

run-IsSound_example : IsSound ledger_host (run ledger_host bids start)
run-IsSound_example = run-IsSound ledger_host ledger_host-HostLaws bids start start-IsSound

abbrev gone : Auction ledger_host
gone = record ended { state = record ended.state { auction_state = sold 2 } }

run_sold_example : run ledger_host ((by 4 2, 0, finalize) ∷ (by 2 1, 900, bid) ∷ []) gone ≡ gone
run_sold_example = run_sold ledger_host ((by 4 2, 0, finalize) ∷ (by 2 1, 900, bid) ∷ []) gone refl

bid_succeeds : (auction_bid ledger_host (by 1 1) 150 ended).0 ≡ ok tt
unfolding auction_bid
bid_succeeds = refl

auction_bid-Raises_example :
    Raises ledger_host (by 1 1) 150 ended (auction_bid ledger_host (by 1 1) 150 ended).1
auction_bid-Raises_example = auction_bid-Raises ledger_host (by 1 1) 150 ended bid_succeeds

auction_bid_iff_example :
    ((auction_bid ledger_host (by 1 1) 100 ended).0 ≡ ok tt)
    ↔ (300 < bid_of 1 ended.state.bids + 100)
auction_bid_iff_example =
    auction_bid_iff ledger_host (by 1 1) 100 ended 1 refl refl (omega arith) (omega arith)

auction_finalize-Settles_example :
    let (r, v) = auction_finalize ledger_host (by 4 2) ended in
    (a : ℕ) × (winner 300 ended.state.bids ≡ some a)
    × (r ≡ ok tt)
    × (v.state ≡ record ended.state { auction_state = sold a })
    × (v.chain.paid ≡ [] ++ (3, 300) ∷ refunds 300 ended.state.bids)
    × (v.chain.balance + total ended.state.bids ≡ 500)
auction_finalize-Settles_example =
    auction_finalize-Settles ledger_host ledger_host-HostLaws (by 4 2) ended refl (omega arith)
      (omega arith) (inr (omega arith, inl (refl, tt))) (refl, (refl, tt)) refl (omega arith)

first_bid_succeeds :
    (auction_bid ledger_host (by 1 0) 100 (credited ledger_host 100 start)).0 ≡ ok tt
unfolding auction_bid
first_bid_succeeds = refl

auction_bid_exact_example :
    let v = (auction_bid ledger_host (by 1 0) 100 (credited ledger_host 100 start)).1 in
    (bid_of 1 v.state.bids ≡ bid_of 1 start.state.bids + 100)
    × (total v.state.bids ≡ total start.state.bids + 100)
    × (total v.state.bids < u64_mod)
auction_bid_exact_example =
    auction_bid_exact ledger_host ledger_host-HostLaws (by 1 0) 100 start 1 start-IsSound refl
      (omega arith) first_bid_succeeds

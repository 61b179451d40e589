-- ===== src/Commerce/Effect.antt =====
-- What a successful call to the escrow of Commerce/src/lib.rs may have done: entered a purchase,
-- moved one along an arrow of its life, or changed a listing before there was a purchase.
pub mod Calls
use bachelor_project.Prelude.{ℕ, ◌≡◌, true, false, some, List, [], get_elem?, set}
use bachelor_project.Contract.{Amount, AccountAddress, ReceiveContext, account, usize, Host}
use bachelor_project.Commerce.Types.{
  requested, Item, Purchase, ContractState, matches_account, push_purchase,
}
use bachelor_project.Commerce.Entry.{Call, request_purchase, abort, Escrow}
use bachelor_project.Commerce.Lifecycle.ByBuyer.{named_by}
use bachelor_project.Commerce.Lifecycle.{IsListed, Moved}

-- The item that a call names, where it names one.
abbrev pub named_item : Call → ℕ
named_item (request_purchase (some p)) = usize p.item
named_item (abort p) = named_by p
named_item _ = 0

module _ (h : Host) (ctx : ReceiveContext) (n : ℕ) (x : Amount) where
  -- A new purchase, in state requested and with item 0, at the price of the item `n` that was asked for.
  pub record Enters (w v : Escrow h) : Type 0 where
    pub buyer : AccountAddress
    pub entry : Purchase
    pub by_account : ctx.sender ≡ account buyer
    pub price_paid : IsListed w.state n x
    pub state_new : entry.state ≡ requested
    pub item_new : entry.item ≡ 0
    pub buyer_new : entry.buyer ≡ buyer
    pub pushed : v ≡ push_purchase entry w

  pub record Relists (w v : Escrow h) : Type 0 where
    pub place : ℕ
    pub item : Item
    pub by_vendor : matches_account ctx.sender w.state.vendor ≡ true
    pub no_purchase : w.state.contracts ≡ []
    pub relisted :
        v ≡ record w { state = record w.state { listings = set w.state.listings place item } }

  pub data Effect (w v : Escrow h) : Type 0 where
    enters : Enters w v → Effect w v
    moves : Moved h ctx.sender n x w v → Effect w v
    relists : Relists w v → Effect w v

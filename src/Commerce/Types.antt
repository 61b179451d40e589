-- ===== src/Commerce/Types.antt =====
-- Commerce/src/lib.rs: the state of the escrow, the parameters and errors of its entrypoints, and
-- `commerce_init`.
use Prim.Native.String.{String}
use bachelor_project.Prelude.{
  ℕ, ◌+◌, Bool, true, false, Option, none, some, List, [], ◌∷◌, ◌++◌, u64, ltb, ◌==◌, get_elem?,
  set, if◌then◌else◌,
}
use bachelor_project.Contract.{
  AccountAddress, Amount, Timestamp, Address, account, contract, Outcome, ok, err, Reject, World,
  default_reject,
}

pub record InitParameter : Type 0 where
  pub vendor : AccountAddress
  pub timeout : ℕ

pub data State : Type 0 where
  null requested accepted rejected delivered completed dispute counter failed : State

-- `==` of the derived `PartialEq`
abbrev pub is_state : State → State → Bool
is_state null null = true
is_state requested requested = true
is_state accepted accepted = true
is_state rejected rejected = true
is_state delivered delivered = true
is_state completed completed = true
is_state dispute dispute = true
is_state counter counter = true
is_state failed failed = true
is_state _ _ = false

pub record Item : Type 0 where
  pub item_value : Amount
  pub description : String

pub record Purchase : Type 0 where
  pub commit : ℕ
  pub timestamp : Timestamp
  pub item : ℕ
  pub seller_bit : Bool
  pub notes : String
  pub state : State
  pub buyer : AccountAddress

pub record ContractState : Type 0 where
  pub vendor : AccountAddress
  pub timeout : ℕ
  pub contracts : List Purchase
  pub listings : List Item

pub data Errors : Type 0 where
  parameter_error transfer_error parse_error matching_account_error state_error : Errors
  matching_item_error matching_item_value_error timestamp_error commit_error : Errors
  programmer_error amount_error : Errors

-- The stand-in for the clock: a time stamp moves on by 10 ms at each step.
abbrev pub tsfix : Timestamp → Timestamp
tsfix t = u64 (t + 10)

unfoldable pub commerce_init : Option InitParameter → Outcome Reject ContractState
commerce_init none = err Reject.parse_error
commerce_init (some parameter) =
    if ltb 0 parameter.timeout
    then ok (record {
      vendor = parameter.vendor;
      timeout = parameter.timeout;
      contracts = [];
      listings = [];
    })
    else err default_reject

pub record BuyerRequestPurchaseParameter : Type 0 where
  pub info : String
  pub timestamp : ℕ
  pub item : ℕ

pub record IdParameter : Type 0 where
  pub id : ℕ

pub record BuyAbortParameter : Type 0 where
  pub id : ℕ
  pub item : ℕ

pub record BuyerIdCommitment : Type 0 where
  pub id : ℕ
  pub commitment : ℕ

pub record BuyerOpenCommitmentParameter : Type 0 where
  pub id : ℕ
  pub buyer_bit : Bool
  pub nonce : ℕ

pub record SellerCounterDispute : Type 0 where
  pub id : ℕ
  pub random_bit : Bool

pub record SellerUpdateListings : Type 0 where
  pub item_id : ℕ
  pub description : String
  pub value : ℕ

-- `Address::matches_account`
abbrev pub matches_account : Address → AccountAddress → Bool
matches_account (account a) b = a == b
matches_account (contract _ _) b = false

module _ {C : Type 0} where
  -- `contracts.get_mut(id)`
  abbrev pub purchase_at : ℕ → World ContractState C → Option Purchase
  purchase_at i w = get_elem? w.state.contracts i

  -- `listings.get(item)`
  abbrev pub listing_at : ℕ → World ContractState C → Option Item
  listing_at i w = get_elem? w.state.listings i

  -- A write through the borrowed purchase.
  abbrev pub write_purchase : ℕ → Purchase → World ContractState C → World ContractState C
  write_purchase i p w = record w {
    state = record w.state { contracts = set w.state.contracts i p };
  }

  -- `contracts.push(p)`
  abbrev pub push_purchase : Purchase → World ContractState C → World ContractState C
  push_purchase p w = record w {
    state = record w.state { contracts = w.state.contracts ++ p ∷ [] };
  }

  -- A write through the borrowed listing.
  abbrev pub write_listing : ℕ → Item → World ContractState C → World ContractState C
  write_listing i item w = record w {
    state = record w.state { listings = set w.state.listings i item };
  }

-- ===== src/Contract/Platform.antt =====
-- The host as an interface: the balance of the contract, the transfers that it has made, and the
-- call that makes one. The laws are what the platform documents of `invoke_transfer`.
use bachelor_project.Prelude.{◌+◌, ◌≤◌, ◌≡◌, Bool, true, Option, none, some, List, [], ◌∷◌, ◌++◌}
use bachelor_project.Contract.Monad.{AccountAddress, Amount, World, Receive, ok}

pub data TransferError : Type 0 where
  amount_too_large missing_account : TransferError

pub record Host : Type 1 where
  pub Chain : Type 0
  -- the balance of the contract
  pub self_balance : Chain → Amount
  -- the transfers made so far, the latest last
  pub transfers : Chain → List (AccountAddress × Amount)
  pub is_account : AccountAddress → Bool
  -- `none` is `Ok(())`
  pub invoke_transfer : AccountAddress → Amount → Chain → Option TransferError × Chain
  -- what a payable entrypoint is sent, credited before it runs
  pub credit : Amount → Chain → Chain

-- A transfer is made if the balance covers it and the account exists; a refused one does nothing.
pub record HostLaws (h : Host) : Type 0 where
  pub transfer_made :
      (a : AccountAddress) (x : Amount) (c : h.Chain)
      → h.is_account a ≡ true
      → x ≤ h.self_balance c
      → (h.invoke_transfer a x c).0 ≡ none
  pub transfer_pays :
      (a : AccountAddress) (x : Amount) (c : h.Chain)
      → (h.invoke_transfer a x c).0 ≡ none
      → h.self_balance (h.invoke_transfer a x c).1 + x ≡ h.self_balance c
  pub transfer_logged :
      (a : AccountAddress) (x : Amount) (c : h.Chain)
      → (h.invoke_transfer a x c).0 ≡ none
      → h.transfers (h.invoke_transfer a x c).1 ≡ h.transfers c ++ (a, x) ∷ []
  pub transfer_refused :
      (a : AccountAddress) (x : Amount) (c : h.Chain) {e : TransferError}
      → (h.invoke_transfer a x c).0 ≡ some e
      → (h.invoke_transfer a x c).1 ≡ c
  pub credit_balance :
      (x : Amount) (c : h.Chain) → h.self_balance (h.credit x c) ≡ h.self_balance c + x
  pub credit_transfers : (x : Amount) (c : h.Chain) → h.transfers (h.credit x c) ≡ h.transfers c

module _ (h : Host) where
  -- `host.invoke_transfer(&a, x)` inside an entrypoint
  abbrev pub transfer :
      {S E : Type 0} → AccountAddress → Amount → Receive (World S h.Chain) E (Option TransferError)
  transfer a x w = let (r, c) = h.invoke_transfer a x w.chain in (ok r, record w { chain = c })

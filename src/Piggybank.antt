-- ===== src/Piggybank.antt =====
-- Piggybank/src/lib.rs: the piggy bank. An accepted call returns the action that the chain carries
-- out.
mod Tests
pub mod History
use bachelor_project.Prelude.{Bool, true, false, ◌==◌}
use bachelor_project.Contract.{
  AccountAddress, Amount, Address, account, contract, ReceiveContext, Reject, default_reject,
  Outcome, ok, Receive, pure, gets, ensure, modify, ◌>>=◌, ◌>>◌,
}

pub data PiggyBankState : Type 0 where
  intact smashed : PiggyBankState

pub data SmashError : Type 0 where
  not_owner already_smashed : SmashError

pub data Action : Type 0 where
  accept : Action
  simple_transfer : AccountAddress → Amount → Action

abbrev pub is_intact : PiggyBankState → Bool
is_intact intact = true
is_intact smashed = false

abbrev pub matches_account : Address → AccountAddress → Bool
matches_account (account a) b = a == b
matches_account (contract _ _) b = false

unfoldable pub piggy_init : Outcome Reject PiggyBankState
piggy_init = ok intact

unfoldable pub piggy_insert : ReceiveContext → Amount → Receive PiggyBankState Reject Action
piggy_insert ctx amount = do
  state ← gets (λ s. s)
  ensure (is_intact state) default_reject
  pure accept

unfoldable pub piggy_smash : ReceiveContext → Amount → Receive PiggyBankState SmashError Action
piggy_smash ctx self_balance = do
  ensure (matches_account ctx.sender ctx.owner) not_owner
  state ← gets (λ s. s)
  ensure (is_intact state) already_smashed
  modify (λ s. smashed)
  pure (simple_transfer ctx.owner self_balance)

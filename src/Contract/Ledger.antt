-- ===== src/Contract/Ledger.antt =====
-- A concrete host, which shows that the laws can be met: it holds a balance and a list of
-- transfers, and knows every account.
use bachelor_project.Prelude.{
  ◌+◌, ◌-◌, ◌≤◌, ◌≡◌, refl, true, Option, none, some, List, [], ◌∷◌, ◌++◌, arith, leb,
  if◌then◌else◌,
}
use bachelor_project.Contract.Monad.{AccountAddress, Amount}
use bachelor_project.Contract.Platform.{Host, HostLaws, TransferError, amount_too_large}

pub record Ledger : Type 0 where
  pub balance : Amount
  pub paid : List (AccountAddress × Amount)

unfoldable pub pay : AccountAddress → Amount → Ledger → Option TransferError × Ledger
pay a x l =
    if leb x l.balance
    then (none, record { balance = l.balance - x; paid = l.paid ++ (a, x) ∷ [] })
    else (some amount_too_large, l)

abbrev pub ledger_host : Host
ledger_host = record {
  Chain = Ledger;
  self_balance = λ l. l.balance;
  transfers = λ l. l.paid;
  is_account = λ a. true;
  invoke_transfer = pay;
  credit = λ x l. record l { balance = l.balance + x };
}

pay_covers : (a : AccountAddress) (x : Amount) (l : Ledger) → x ≤ l.balance → (pay a x l).0 ≡ none
unfolding pay
pay_covers a x l h = ground arith

pay_debits :
    (a : AccountAddress) (x : Amount) (l : Ledger)
    → (pay a x l).0 ≡ none
    → (pay a x l).1.balance + x ≡ l.balance
unfolding pay
pay_debits a x l h = ground arith

pay_logs :
    (a : AccountAddress) (x : Amount) (l : Ledger)
    → (pay a x l).0 ≡ none
    → (pay a x l).1.paid ≡ l.paid ++ (a, x) ∷ []
unfolding pay
pay_logs a x l h = ground arith

pay_refuses :
    (a : AccountAddress) (x : Amount) (l : Ledger) {e : TransferError}
    → (pay a x l).0 ≡ some e
    → (pay a x l).1 ≡ l
unfolding pay
pay_refuses a x l h = ground arith

pub ledger_host-HostLaws : HostLaws ledger_host
ledger_host-HostLaws = record {
  transfer_made = λ a x c _ covered. pay_covers a x c covered;
  transfer_pays = pay_debits;
  transfer_logged = pay_logs;
  transfer_refused = λ a x c e. pay_refuses a x c e;
  credit_balance = λ x c. refl;
  credit_transfers = λ x c. refl;
}

-- ===== src/Fibonacci.antt =====
-- Fibonacci/src/lib.rs: the contract that adds a Fibonacci number to its state, by sending itself
-- messages or by a plain recursion. A `u64` addition wraps.
mod Tests
pub mod Sums
pub mod Bounds
use bachelor_project.Prelude.{ℕ, zero, suc, ◌+◌, Option, none, some, u64}
use bachelor_project.Contract.{Amount, Outcome, ok, err, Reject, parse_error}

pub record State : Type 0 where
  pub result : ℕ

pub record FibNum : Type 0 where
  pub number : ℕ

unfoldable pub contract_init : Outcome Reject State
contract_init = ok (record { result = 0 })

-- The messages to itself, for the parameter `n`: their outcomes are not looked at.
unfoldable pub receive_number : ℕ → State → State
receive_number zero state = record { result = u64 (state.result + 1) }
receive_number (suc zero) state = record { result = u64 (state.result + 1) }
receive_number (suc (suc n)) state = receive_number n (receive_number (suc n) state)

unfoldable pub contract_receive : Option FibNum → State → Outcome Reject (Unit {0}) × State
contract_receive none state = (err parse_error, state)
contract_receive (some fibnum) state = (ok tt, receive_number fibnum.number state)

unfoldable pub fib : ℕ → ℕ
fib zero = 1
fib (suc zero) = 1
fib (suc (suc n)) = u64 (fib (suc n) + fib n)

unfoldable pub contract_receive_calc_fib : Amount → State → Outcome Reject (Unit {0}) × State
contract_receive_calc_fib amount state = (ok tt, record { result = fib amount })

-- ===== src/Fibonacci/Sums.antt =====
-- Fibonacci/src/lib.rs: both recursions against the Fibonacci numbers without a bound.
use bachelor_project.Prelude.{ℕ, zero, suc, ◌+◌, ◌≡◌, refl, ap, some, u64, arith}
use bachelor_project.Fibonacci.{
  State, receive_number, contract_receive, fib, contract_receive_calc_fib,
}

-- Two neighbours of the sequence 1, 1, 2, 3, 5, … at a time.
unfoldable pub neighbours : ℕ → ℕ × ℕ
neighbours zero = (1, 1)
neighbours (suc n) = ((neighbours n).1, (neighbours n).0 + (neighbours n).1)

-- The recursion computes the Fibonacci number modulo 2^64.
pub fib-neighbours : (n : ℕ) → fib n ≡ u64 (neighbours n).0
unfolding fib neighbours
fib-neighbours zero = refl
fib-neighbours (suc zero) = refl
fib-neighbours (suc (suc n)) = omega (arith, fib-neighbours (suc n), fib-neighbours n)

receive_number-neighbours :
    (n : ℕ) (s : State) → (receive_number n s).result ≡ u64 (s.result + (neighbours n).0)
unfolding receive_number neighbours
receive_number-neighbours zero s = refl
receive_number-neighbours (suc zero) s = refl
receive_number-neighbours (suc (suc n)) s = omega (
  arith,
  receive_number-neighbours n (receive_number (suc n) s),
  receive_number-neighbours (suc n) s,
)

-- The messages that the contract sends itself for `n` add the Fibonacci number of `n` to the result,
-- modulo 2^64.
pub contract_receive-neighbours :
    (n : ℕ) (s : State)
    → (contract_receive (some (record { number = n })) s).1.result
      ≡ u64 (s.result + (neighbours n).0)
unfolding contract_receive
contract_receive-neighbours n s = receive_number-neighbours n s

abbrev with_result : ℕ → State
with_result r = record { result = r }

-- From a result of 0 the messages for `n` leave the same state as the plain recursion for `n`.
pub contract_receive-calc_fib :
    (n : ℕ)
    → (contract_receive (some (record { number = n })) (record { result = 0 })).1
      ≡ (contract_receive_calc_fib n (record { result = 0 })).1
unfolding contract_receive_calc_fib
contract_receive-calc_fib n =
    ap with_result
      (omega (arith, contract_receive-neighbours n (record { result = 0 }), fib-neighbours n))

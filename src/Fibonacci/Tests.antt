-- ===== src/Fibonacci/Tests.antt =====
-- Runs of Fibonacci/src/lib.rs.
use bachelor_project.Prelude.{◌≡◌, refl, some, true, arith}
use bachelor_project.Fibonacci.{fib, contract_receive, contract_receive_calc_fib}
use bachelor_project.Fibonacci.Bounds.{post_condition, metamorphic_properties, tests_hold}
use bachelor_project.Fibonacci.Sums.{contract_receive-calc_fib}

fib-twelve : fib 12 ≡ 233
unfolding fib
fib-twelve = refl

contract_receive-calc_fib_example :
    (contract_receive (some (record { number = 7 })) (record { result = 0 })).1
    ≡ (contract_receive_calc_fib 7 (record { result = 0 })).1
contract_receive-calc_fib_example = contract_receive-calc_fib 7

tests_hold_example : (post_condition 21 ≡ true) × (metamorphic_properties 21 ≡ true)
tests_hold_example = tests_hold 21 (omega arith)

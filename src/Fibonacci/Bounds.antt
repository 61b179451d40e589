-- ===== src/Fibonacci/Bounds.antt =====
-- Fibonacci/src/lib.rs: how far the numbers fit in 64 bits, and the properties that its tests sample.
use bachelor_project.Prelude.{
  ℕ, zero, suc, ◌+◌, ◌-◌, ◌≤◌, ◌≡◌, refl, Bool, true, ◌&&◌, some, u64, leb, ◌==◌, arith, ap, sym,
  Bool-cases, inl, inr,
}
use bachelor_project.Fibonacci.{contract_receive, fib}
use bachelor_project.Fibonacci.Sums.{neighbours, fib-neighbours, contract_receive-neighbours}

-- The sequence from `a` and `b` on, one step at a time.
climb : ℕ → ℕ → ℕ → ℕ
climb zero a b = a
climb (suc n) a b = climb n b (a + b)

climb-neighbours :
    (n m k : ℕ) → n + m ≡ k → climb n (neighbours m).0 (neighbours m).1 ≡ (neighbours k).0
unfolding climb neighbours
climb-neighbours zero m k e = ap (λ j. (neighbours j).0) (omega (arith, e))
climb-neighbours (suc n) m k e = climb-neighbours n (suc m) k (omega (arith, e))

neighbours_rise : (n : ℕ) → (1 ≤ (neighbours n).0) × ((neighbours n).0 ≤ (neighbours n).1)
unfolding neighbours
neighbours_rise zero = omega arith
neighbours_rise (suc n) = omega (arith, neighbours_rise n)

neighbours-le : (m n : ℕ) → n ≤ m → (neighbours n).0 ≤ (neighbours m).0
unfolding neighbours
neighbours-le zero n l = let at : n ≡ 0 = omega arith in rw at (omega arith)
neighbours-le (suc m) n l = elim (Bool-cases (n == suc m)) [
  | inl same ↦ let at : n ≡ suc m = ground arith in rw at (omega arith)
  | inr less ↦ omega (arith, neighbours-le m n (ground arith), neighbours_rise m)
]

neighbours_sum :
    (n : ℕ)
    → ((neighbours (n + 1)).0 ≡ (neighbours n).1)
      × ((neighbours (n + 2)).0 ≡ (neighbours n).0 + (neighbours n).1)
unfolding neighbours
neighbours_sum n = (
  ap (λ j. (neighbours j).0) {y = suc n} (omega arith),
  ap (λ j. (neighbours j).0) {y = suc (suc n)} (omega arith),
)

neighbours-last : (neighbours 92).0 ≡ 12200160415121876738
unfolding climb neighbours
neighbours-last = sym (climb-neighbours 92 0 92 refl)

-- Up to 92 the recursion computes the Fibonacci number itself: nothing wraps.
pub fib_fits : (n : ℕ) → n ≤ 92 → fib n ≡ (neighbours n).0
fib_fits n l = omega (arith, fib-neighbours n, neighbours-le 92 n l, neighbours-last)

-- The result of a run from 0.
unfoldable pub result_of : ℕ → ℕ
result_of n = (contract_receive (some (record { number = n })) (record { result = 0 })).1.result

unfoldable pub post_condition : ℕ → Bool
post_condition n = result_of n == fib n

unfoldable pub metamorphic_properties : ℕ → Bool
metamorphic_properties n =
    let result_a = result_of n in
    let result_a1 = result_of (n + 1) in
    let result_a2 = result_of (n + 2) in
    leb 1 result_a
    && (u64 (result_a + result_a1) == result_a2
        && (result_a2 - result_a1 == result_a && leb result_a result_a1))

result_of_fits : (n : ℕ) → n ≤ 92 → result_of n ≡ (neighbours n).0
unfolding result_of
result_of_fits n l = omega (
  arith,
  contract_receive-neighbours n (record { result = 0 }),
  neighbours-le 92 n l,
  neighbours-last,
)

-- What the tests sample below 22 holds of every number up to 90: the messages compute what the plain
-- recursion does, at least 1, rising, and each the sum of the two before it.
pub tests_hold : (n : ℕ) → n ≤ 90 → (post_condition n ≡ true) × (metamorphic_properties n ≡ true)
unfolding post_condition metamorphic_properties
tests_hold n l =
    let first = result_of_fits n (omega arith) in
    let second = result_of_fits (n + 1) (omega arith) in
    let third = result_of_fits (n + 2) (omega arith) in
    let sum = neighbours_sum n in
    let last = neighbours-le 92 (n + 2) (omega arith) in
    let up = neighbours_rise n in
    let exact = fib_fits n (omega arith) in
    (
      ground (arith, first, exact),
      ground (arith, first, second, third, sum, last, neighbours-last, up),
    )

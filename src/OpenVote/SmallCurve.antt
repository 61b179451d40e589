-- ===== src/OpenVote/SmallCurve.antt =====
-- A concrete group of the interface for open-vote-network/: the numbers modulo 5, as points and as
-- scalars. It shows that the laws can be met, and the tests run on it.
use bachelor_project.Prelude.{
  ℕ, ◌+◌, ◌-◌, ◌*◌, ◌%◌, ◌≡◌, ◌≢◌, refl, sym, ap, ◌∙◌, Bool, true, ◌&&◌, Option, none, some, [],
  ◌∷◌, ◌==◌, arith, if◌then◌else◌,
}
use bachelor_project.OpenVote.Curve.{Bytes, Curve, CurveLaws}

pub data Residue : Type 0 where
  zero one two three four : Residue

abbrev pub number : Residue → ℕ
number zero = 0
number one = 1
number two = 2
number three = 3
number four = 4

abbrev pub residue : ℕ → Residue
residue n =
    let r = n % 5 in
    if r == 0
    then zero
    else if r == 1
    then one
    else if r == 2
    then two
    else if r == 3
    then three
    else four

abbrev pub add : Residue → Residue → Residue
add a b = residue (number a + number b)

abbrev pub times : Residue → Residue → Residue
times a b = residue (number a * number b)

abbrev pub negate : Residue → Residue
negate a = residue (5 - number a)

abbrev pub same : Residue → Residue → Bool
same a b = number a == number b

-- Zero is not read.
abbrev pub read : Bytes → Option Residue
read (b ∷ []) =
    if b == 1
    then some one
    else if b == 2
    then some two
    else if b == 3
    then some three
    else if b == 4
    then some four
    else none
read _ = none

abbrev pub small_curve : Curve
small_curve = record {
  Point = Residue;
  Scalar = Residue;
  identity = zero;
  generator = one;
  add = add;
  neg = negate;
  scale = times;
  same_point = same;
  zero_scalar = zero;
  one_scalar = one;
  plus = add;
  minus = negate;
  times = times;
  same_scalar = same;
  point_bytes = λ a. number a ∷ [];
  scalar_bytes = λ a. number a ∷ [];
  from_sec1_bytes = read;
  from_be_bytes = read;
  sha256 = λ bytes. 4 ∷ [];
  Proof = Unit {0};
  proof_from_bytes = λ bytes. some tt;
  proof_verify = λ proof root i leaf n. true;
  account_bytes = λ a. a ∷ [];
}

-- A test that holds of all five.
abbrev all : (Residue → Bool) → Bool
all test = test zero && (test one && (test two && (test three && test four)))

all_each : (test : Residue → Bool) → all test ≡ true → (a : Residue) → test a ≡ true
all_each test e zero = ground arith
all_each test e one = ground arith
all_each test e two = ground arith
all_each test e three = ground arith
all_each test e four = ground arith

same_sound : (a b : Residue) → same a b ≡ true → a ≡ b
same_sound zero zero e = refl
same_sound zero one e = ground arith
same_sound zero two e = ground arith
same_sound zero three e = ground arith
same_sound zero four e = ground arith
same_sound one zero e = ground arith
same_sound one one e = refl
same_sound one two e = ground arith
same_sound one three e = ground arith
same_sound one four e = ground arith
same_sound two zero e = ground arith
same_sound two one e = ground arith
same_sound two two e = refl
same_sound two three e = ground arith
same_sound two four e = ground arith
same_sound three zero e = ground arith
same_sound three one e = ground arith
same_sound three two e = ground arith
same_sound three three e = refl
same_sound three four e = ground arith
same_sound four zero e = ground arith
same_sound four one e = ground arith
same_sound four two e = ground arith
same_sound four three e = ground arith
same_sound four four e = refl

same_refl : (a : Residue) → same a a ≡ true
same_refl zero = refl
same_refl one = refl
same_refl two = refl
same_refl three = refl
same_refl four = refl

add-zero : (a : Residue) → add a zero ≡ a
add-zero a = same_sound (add a zero) (a) (all_each (λ a. same (add a zero) (a)) refl a)

add-negate : (a : Residue) → add a (negate a) ≡ zero
add-negate a =
    same_sound (add a (negate a)) (zero) (all_each (λ a. same (add a (negate a)) (zero)) refl a)

times-one : (a : Residue) → times a one ≡ a
times-one a = same_sound (times a one) (a) (all_each (λ a. same (times a one) (a)) refl a)

add_comm : (a b : Residue) → add a b ≡ add b a
add_comm a b = same_sound (add a b) (add b a) (
    all_each (λ b. same (add a b) (add b a))
      (all_each (λ a. all (λ b. same (add a b) (add b a))) refl a) b)

times_comm : (a b : Residue) → times a b ≡ times b a
times_comm a b = same_sound (times a b) (times b a) (
    all_each (λ b. same (times a b) (times b a))
      (all_each (λ a. all (λ b. same (times a b) (times b a))) refl a) b)

add_assoc : (a b d : Residue) → add (add a b) d ≡ add a (add b d)
add_assoc a b d = same_sound (add (add a b) d) (add a (add b d)) (
    all_each (λ d. same (add (add a b) d) (add a (add b d)))
      (all_each (λ b. all (λ d. same (add (add a b) d) (add a (add b d))))
        (all_each (λ a. all (λ b. all (λ d. same (add (add a b) d) (add a (add b d))))) refl a) b)
      d)

times-add : (a b d : Residue) → times a (add b d) ≡ add (times a b) (times a d)
times-add a b d = same_sound (times a (add b d)) (add (times a b) (times a d)) (
    all_each (λ d. same (times a (add b d)) (add (times a b) (times a d)))
      (all_each (λ b. all (λ d. same (times a (add b d)) (add (times a b) (times a d))))
        (all_each
          (λ a. all (λ b. all (λ d. same (times a (add b d)) (add (times a b) (times a d))))) refl
          a)
        b)
      d)

add-times : (a b d : Residue) → times (add a b) d ≡ add (times a d) (times b d)
add-times a b d = same_sound (times (add a b) d) (add (times a d) (times b d)) (
    all_each (λ d. same (times (add a b) d) (add (times a d) (times b d)))
      (all_each (λ b. all (λ d. same (times (add a b) d) (add (times a d) (times b d))))
        (all_each
          (λ a. all (λ b. all (λ d. same (times (add a b) d) (add (times a d) (times b d))))) refl
          a)
        b)
      d)

times_assoc : (a b d : Residue) → times a (times b d) ≡ times (times a b) d
times_assoc a b d = same_sound (times a (times b d)) (times (times a b) d) (
    all_each (λ d. same (times a (times b d)) (times (times a b) d))
      (all_each (λ b. all (λ d. same (times a (times b d)) (times (times a b) d)))
        (all_each (λ a. all (λ b. all (λ d. same (times a (times b d)) (times (times a b) d)))) refl
          a)
        b)
      d)

read-number : (a : Residue) → a ≢ zero → read (number a ∷ []) ≡ some a
read-number zero other = absurd (other refl)
read-number one other = refl
read-number two other = refl
read-number three other = refl
read-number four other = refl

pub small_curve-CurveLaws : CurveLaws small_curve
small_curve-CurveLaws = record {
  add_comm = add_comm;
  add_assoc = add_assoc;
  add-identity = add-zero;
  add-neg = add-negate;
  plus_comm = add_comm;
  plus_assoc = add_assoc;
  plus-zero = add-zero;
  plus-minus = add-negate;
  times_comm = times_comm;
  scale-plus = times-add;
  scale-add = add-times;
  scale-times = times_assoc;
  scale-one = times-one;
  same_point_iff = λ a b. (same_sound a b, λ e. ap (same a) (sym e) ∙ same_refl a);
  same_scalar_iff = λ a b. (same_sound a b, λ e. ap (same a) (sym e) ∙ same_refl a);
  point_round = read-number;
  scalar_round = read-number;
  identity_refused = refl;
  zero_refused = refl;
  no_bytes = refl;
}

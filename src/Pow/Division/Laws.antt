-- ===== src/Pow/Division/Laws.antt =====
-- The division of 256-bit integers of bitcoin/src/pow.rs is that of numbers.
use rust_riecoin.Base.{
  ℕ, suc, ◌+◌, ◌-◌, ◌*◌, ◌/◌, ◌%◌, ◌^◌, ◌<◌, ◌≤◌, ◌≡◌, refl, sym, ap, ◌∙◌, arith, Bool-cases, inl,
  inr, ltb, false, none, some, ◌==◌,
}
use native.Mathlib.Nat.{div-eq_of_lt-le, mod-eq-sub-div-mul, pow-le-pow_right, mul-le-mul_right}
use rust_riecoin.Base.Powers.{pow_double, pow_pos, pow_split}
use rust_riecoin.Pow.U256.{U256, wrapping_shl}
use rust_riecoin.Pow.U256.Laws.{value, IsU256}
use rust_riecoin.Pow.U256.Shift.{shift-value, wrapping_shl-IsU256}
use rust_riecoin.Pow.Division.{bits, long_division, div_rem, zero_u256}
use rust_riecoin.Pow.Division.Bits.{bits_lem, bits-zero, bits-pos}
use rust_riecoin.Pow.Division.Loop.{Divided, long_division-Divided}

-- A quotient with a rest below the divisor is the quotient.
pub quotient_unique : (x d q r : ℕ) → q * d + r ≡ x → r < d → (q ≡ x / d) × (r ≡ x % d)
quotient_unique x d q r e h =
    let quotient : x / d ≡ q = div-eq_of_lt-le d (omega arith) (omega arith) in
    let back : x / d * d ≡ q * d = ap (λ t. t * d) quotient in
    (sym quotient, omega (arith, mod-eq-sub-div-mul x d))

-- The shift between the first bits of the divisor and the number.
start-Divided :
    (x rhs : U256)
    → IsU256 x
    → IsU256 rhs
    → 0 < value rhs
    → bits rhs ≤ bits x
    → Divided (value rhs) (value x) (suc (bits x - bits rhs)) zero_u256 x
unfolding value
start-Divided x rhs v w p h =
    let k = bits x - bits rhs in
    let (top, _, _) = bits_lem x v in
    let (_, _, half) = bits_lem rhs w in
    let whole : bits rhs + k ≡ bits x = omega arith in
    let split : 2 ^ bits x ≡ 2 ^ bits rhs * 2 ^ k =
      ap (λ t. 2 ^ t) (sym whole) ∙ pow_split (bits rhs) k in
    let scaled : 2 ^ bits rhs * 2 ^ k ≤ 2 * value rhs * 2 ^ k = mul-le-mul_right (2 ^ k) (half p) in
    let double : value rhs * 2 ^ suc k ≡ value rhs * (2 * 2 ^ k) =
      ap (λ t. value rhs * t) (pow_double k) in
    record {
      fits = (omega arith, omega arith);
      sub_fits = v;
      clear = ((0, omega arith), (0, omega arith));
      sum = omega arith;
      below = omega (arith, top, split, scaled, double);
    }

-- The shifted divisor does not lose bits.
shifted_divisor :
    (x rhs : U256)
    → IsU256 x
    → IsU256 rhs
    → 0 < bits rhs
    → bits rhs ≤ bits x
    → value (wrapping_shl rhs (bits x - bits rhs)) ≡ value rhs * 2 ^ (bits x - bits rhs)
shifted_divisor x rhs v w p h =
    let k = bits x - bits rhs in
    let (_, most, _) = bits_lem x v in
    let (top, _, _) = bits_lem rhs w in
    let whole : bits rhs + k ≡ bits x = omega arith in
    let split : 2 ^ bits x ≡ 2 ^ bits rhs * 2 ^ k =
      ap (λ t. 2 ^ t) (sym whole) ∙ pow_split (bits rhs) k in
    let bound : 2 ^ bits x ≤ 2 ^ 256 = pow-le-pow_right (omega arith) most in
    let small : k % 256 ≡ k = omega arith in
    let scaled : (value rhs + 1) * 2 ^ k ≤ 2 ^ bits rhs * 2 ^ k =
      mul-le-mul_right (2 ^ k) (omega arith) in
    let positive = pow_pos k in
    let shift : value (wrapping_shl rhs k) ≡ value rhs * 2 ^ k % 2 ^ 256 =
      (let e = (shift-value rhs k w).0 in rw small at e) in
    omega arith

-- What a quotient and a rest are.
pub record IsQuotient (x rhs q r : U256) : Type 0 where
  pub quotient : value q ≡ value x / value rhs
  pub rest : value r ≡ value x % value rhs
  pub quotient_fits : IsU256 q
  pub rest_fits : IsU256 r

value-zero : value zero_u256 ≡ 0
unfolding value
value-zero = refl

smaller-IsQuotient :
    (x rhs : U256)
    → IsU256 x
    → IsU256 rhs
    → 0 < value rhs
    → bits x < bits rhs
    → IsQuotient x rhs zero_u256 x
smaller-IsQuotient x rhs v w p h =
    let (top, _, _) = bits_lem x v in
    let (_, _, half) = bits_lem rhs w in
    let bound : 2 ^ suc (bits x) ≤ 2 ^ bits rhs = pow-le-pow_right (omega arith) h in
    let (quotient, rest) =
      quotient_unique (value x) (value rhs) (value zero_u256) (value x)
        (rw value-zero (omega arith)) (omega (arith, top, half p, bound, pow_double (bits x))) in
    record {
      quotient = quotient;
      rest = rest;
      quotient_fits = (omega arith, omega arith);
      rest_fits = v;
    }

long_division-IsQuotient :
    (x rhs : U256)
    → IsU256 x
    → IsU256 rhs
    → 0 < value rhs
    → bits rhs ≤ bits x
    → let k = bits x - bits rhs in
      let done = long_division k x (wrapping_shl rhs k) zero_u256 in IsQuotient x rhs done.0 done.1
long_division-IsQuotient x rhs v w p h =
    let k = bits x - bits rhs in
    let some_bits : 0 < bits rhs = bits-pos rhs w p in
    let (_, most, _) = bits_lem x v in
    let done =
      long_division-Divided (value rhs) (value x) k x (wrapping_shl rhs k) zero_u256 (omega arith)
        (wrapping_shl-IsU256 rhs k) (shifted_divisor x rhs v w some_bits h)
        (start-Divided x rhs v w p h) in
    let result = long_division k x (wrapping_shl rhs k) zero_u256 in
    let (quotient, rest) =
      quotient_unique (value x) (value rhs) (value result.0) (value result.1) done.sum
        (omega (arith, done.below)) in
    record {
      quotient = quotient;
      rest = rest;
      quotient_fits = done.fits;
      rest_fits = done.sub_fits;
    }

-- A division by zero panics.
div_rem-zero : (x rhs : U256) → value rhs ≡ 0 → div_rem x rhs ≡ none
unfolding div_rem
div_rem-zero x rhs z = rw (bits-zero rhs z) refl

-- For a number and a positive divisor below 2^256, the bitwise long division of div_rem does not
-- panic and gives their quotient and their remainder, both below 2^256.
pub div_rem_lem :
    (x rhs : U256)
    → IsU256 x
    → IsU256 rhs
    → 0 < value rhs
    → (q r : U256) × (div_rem x rhs ≡ some (q, r)) × IsQuotient x rhs q r
unfolding div_rem
div_rem_lem x rhs v w p =
    let some_bits = bits-pos rhs w p in
    let divides : (bits rhs == 0) ≡ false = ground arith in
    elim (Bool-cases (ltb (bits x) (bits rhs))) [
      | inl less ↦
          (zero_u256, x, rw (divides, less) refl, smaller-IsQuotient x rhs v w p (ground arith))
      | inr more ↦ (
        (long_division (bits x - bits rhs) x (wrapping_shl rhs (bits x - bits rhs)) zero_u256).0,
        (long_division (bits x - bits rhs) x (wrapping_shl rhs (bits x - bits rhs)) zero_u256).1,
        rw (divides, more) refl,
        long_division-IsQuotient x rhs v w p (ground arith),
      )
    ]

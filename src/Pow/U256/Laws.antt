-- ===== src/Pow/U256/Laws.antt =====
-- The 256-bit integers of bitcoin/src/pow.rs are the numbers below 2^256.
use rust_riecoin.Base.{
  ℕ, ◌+◌, ◌-◌, ◌*◌, ◌/◌, ◌%◌, ◌^◌, ◌<◌, ◌≤◌, not, ◌≡◌, refl, ap₂, ◌∙◌, ltb, leb, ◌==◌, arith,
}
use native.Mathlib.Nat.{mul-le-mul}
use rust_riecoin.Pow.U256.{
  U256, one, lt, complement, overflowing_add, wrapping_add, overflowing_sub, wrapping_inc, mul_word,
  mul_u64,
}

-- The number that the two halves stand for.
unfoldable pub value : U256 → ℕ
value x = x.high * 2 ^ 128 + x.low

abbrev pub IsU256 : U256 → Type 0
IsU256 x = (x.high < 2 ^ 128) × (x.low < 2 ^ 128)

-- The comparison of the halves is that of the numbers.
pub lt-value : (x y : U256) → IsU256 x → IsU256 y → lt x y ≡ ltb (value x) (value y)
unfolding lt value
lt-value x y h k = ground arith

pub complement-value :
    (x : U256) → IsU256 x → (value (complement x) ≡ 2 ^ 256 - 1 - value x) × IsU256 (complement x)
unfolding complement value
complement-value x h = (omega arith, (omega arith, omega arith))

pub overflowing_add-value :
    (x y : U256)
    → IsU256 x
    → IsU256 y
    → (value (overflowing_add x y).0 ≡ (value x + value y) % 2 ^ 256)
      × ((overflowing_add x y).1 ≡ leb (2 ^ 256) (value x + value y))
      × IsU256 (overflowing_add x y).0
unfolding overflowing_add value
overflowing_add-value x y h k = (ground arith, ground arith, (ground arith, ground arith))

pub wrapping_inc-value : (x : U256) → IsU256 x → value (wrapping_inc x) ≡ (value x + 1) % 2 ^ 256
unfolding wrapping_inc value
wrapping_inc-value x h = ground arith

pub one-IsU256 : IsU256 one
one-IsU256 = (omega arith, omega arith)

pub value-one : value one ≡ 1
unfolding value
value-one = refl

pub wrapping_add-value :
    (x y : U256)
    → IsU256 x
    → IsU256 y
    → (value (wrapping_add x y) ≡ (value x + value y) % 2 ^ 256) × IsU256 (wrapping_add x y)
unfolding wrapping_add
wrapping_add-value x y h k = let p = overflowing_add-value x y h k in (p.0, p.2)

pub value-lt : (x : U256) → IsU256 x → value x < 2 ^ 256
unfolding value
value-lt x h = omega arith

pub overflowing_sub-value :
    (x y : U256)
    → IsU256 x
    → IsU256 y
    → (value (overflowing_sub x y).0 ≡ (value x + 2 ^ 256 - value y) % 2 ^ 256)
      × ((overflowing_sub x y).1 ≡ ltb (value x) (value y))
      × IsU256 (overflowing_sub x y).0
unfolding overflowing_sub
overflowing_sub-value x y h k =
    let (c, c_fits) = complement-value y k in
    let (sum, sum_fits) = wrapping_add-value x (complement y) h c_fits in
    let (next, next_fits) =
      wrapping_add-value (wrapping_add x (complement y)) one sum_fits one-IsU256 in
    (
      omega (arith, next, sum, c, value-one, value-lt x h, value-lt y k),
      lt-value x y h k,
      next_fits,
    )

-- The source's remark: neither the product nor the sum of one turn overflows a `u128`.
mul_word-value :
    (rhs carry word : ℕ)
    → rhs < 2 ^ 64
    → carry < 2 ^ 64
    → word < 2 ^ 64
    → ((mul_word rhs carry word).0 + 2 ^ 64 * (mul_word rhs carry word).1 ≡ carry + rhs * word)
      × ((mul_word rhs carry word).0 < 2 ^ 64)
      × ((mul_word rhs carry word).1 < 2 ^ 64)
unfolding mul_word
mul_word-value rhs carry word r c w =
    let p : rhs * word ≤ (2 ^ 64 - 1) * (2 ^ 64 - 1) =
      mul-le-mul {n₂ = 2 ^ 64 - 1} {m₂ = 2 ^ 64 - 1} (omega arith) (omega arith) in
    (omega arith, omega arith, omega arith)

-- Four words of the product and the last carry, put together.
long_multiplication :
    (r a b c d w₀ w₁ w₂ w₃ c₀ c₁ c₂ c₃ : ℕ)
    → w₀ + 2 ^ 64 * c₀ ≡ 0 + r * a
    → w₁ + 2 ^ 64 * c₁ ≡ c₀ + r * b
    → w₂ + 2 ^ 64 * c₂ ≡ c₁ + r * c
    → w₃ + 2 ^ 64 * c₃ ≡ c₂ + r * d
    → (w₂ + w₃ * 2 ^ 64) * 2 ^ 128 + (w₀ + w₁ * 2 ^ 64) + 2 ^ 256 * c₃
      ≡ ((c + d * 2 ^ 64) * 2 ^ 128 + (a + b * 2 ^ 64)) * r
long_multiplication r a b c d w₀ w₁ w₂ w₃ c₀ c₁ c₂ c₃ e₀ e₁ e₂ e₃ = omega arith

words : (v : ℕ) → v < 2 ^ 128 → v % 2 ^ 64 + v / 2 ^ 64 % 2 ^ 64 * 2 ^ 64 ≡ v
words v h = omega arith

-- A number below 2^256 and the multiple of 2^256 that is missing.
wrapped :
    (v p c : ℕ)
    → v + 2 ^ 256 * c ≡ p
    → v < 2 ^ 256
    → (v ≡ p % 2 ^ 256) × (not (c == 0) ≡ leb (2 ^ 256) p)
wrapped v p c e l = (omega arith, ground arith)

-- For a number below 2^256 and a factor below 2^64, mul_u64 gives the product modulo 2^256, with
-- halves below 2^128, and the flag is set exactly if the product is 2^256 or more.
pub mul_u64-value :
    (x : U256) (rhs : ℕ)
    → IsU256 x
    → rhs < 2 ^ 64
    → (value (mul_u64 x rhs).0 ≡ value x * rhs % 2 ^ 256)
      × ((mul_u64 x rhs).1 ≡ leb (2 ^ 256) (value x * rhs))
      × IsU256 (mul_u64 x rhs).0
unfolding mul_u64 value
mul_u64-value x rhs h r =
    let t₀ = mul_word-value rhs 0 (x.low % 2 ^ 64) r (omega arith) (omega arith) in
    let c₀ = (mul_word rhs 0 (x.low % 2 ^ 64)).1 in
    let t₁ = mul_word-value rhs c₀ (x.low / 2 ^ 64 % 2 ^ 64) r t₀.2 (omega arith) in
    let c₁ = (mul_word rhs c₀ (x.low / 2 ^ 64 % 2 ^ 64)).1 in
    let t₂ = mul_word-value rhs c₁ (x.high % 2 ^ 64) r t₁.2 (omega arith) in
    let c₂ = (mul_word rhs c₁ (x.high % 2 ^ 64)).1 in
    let t₃ = mul_word-value rhs c₂ (x.high / 2 ^ 64 % 2 ^ 64) r t₂.2 (omega arith) in
    let c₃ = (mul_word rhs c₂ (x.high / 2 ^ 64 % 2 ^ 64)).1 in
    let fits : IsU256 (mul_u64 x rhs).0 = (omega arith, omega arith) in
    let total : value (mul_u64 x rhs).0 + 2 ^ 256 * c₃ ≡ value x * rhs =
      long_multiplication rhs (x.low % 2 ^ 64) (x.low / 2 ^ 64 % 2 ^ 64) (x.high % 2 ^ 64)
        (x.high / 2 ^ 64 % 2 ^ 64) _ _ _ _ c₀ c₁ c₂ c₃ t₀.0 t₁.0 t₂.0 t₃.0
      ∙ ap₂ (λ high low. (high * 2 ^ 128 + low) * rhs) (words x.high h.0) (words x.low h.1) in
    let (v, o) =
      wrapped (value (mul_u64 x rhs).0) (value x * rhs) c₃ total
        (value-lt (mul_u64 x rhs).0 fits) in
    (v, o, fits)

-- For numbers below 2^256: overflowing_add gives the sum modulo 2^256 with the flag set exactly if
-- the sum is 2^256 or more, overflowing_sub the difference modulo 2^256 with the flag set exactly
-- if the first number is less than the second, both with halves below 2^128, and wrapping_inc the
-- next number modulo 2^256.
pub arithmetic-value :
    (x y : U256)
    → IsU256 x
    → IsU256 y
    → ((value (overflowing_add x y).0 ≡ (value x + value y) % 2 ^ 256)
        × ((overflowing_add x y).1 ≡ leb (2 ^ 256) (value x + value y))
        × IsU256 (overflowing_add x y).0)
      × ((value (overflowing_sub x y).0 ≡ (value x + 2 ^ 256 - value y) % 2 ^ 256)
          × ((overflowing_sub x y).1 ≡ ltb (value x) (value y))
          × IsU256 (overflowing_sub x y).0)
      × (value (wrapping_inc x) ≡ (value x + 1) % 2 ^ 256)
arithmetic-value x y h k =
    (overflowing_add-value x y h k, overflowing_sub-value x y h k, wrapping_inc-value x h)

pub wrapping_inc-IsU256 : (x : U256) → IsU256 x → IsU256 (wrapping_inc x)
unfolding wrapping_inc
wrapping_inc-IsU256 x h = ground arith

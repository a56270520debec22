-- ===== src/Pow/Product/Laws.antt =====
-- What the product of 256-bit integers of bitcoin/src/pow.rs computes.
use rust_riecoin.Base.{
  ℕ, ◌+◌, ◌*◌, ◌/◌, ◌%◌, ◌^◌, ◌<◌, ◌≡◌, refl, ap, arith, Bool, true, false, ◌||◌, leb, ◌&&◌, ltb,
  Bool-cases, inl, inr,
}
use native.Mathlib.Nat.{div-add-mod'}
use rust_riecoin.Pow.U256.{U256, overflowing_add, mul_u64, wrapping_shl, wrapping_shr}
use rust_riecoin.Pow.U256.Laws.{
  value, IsU256, value-lt, wrapping_add-value, overflowing_add-value, mul_u64-value,
}
use rust_riecoin.Pow.U256.Shift.{shift-value, wrapping_shl-IsU256}
use rust_riecoin.Pow.Product.{low_u64, mul_round, overflowing_mul}

low_u64-value : (x : U256) → low_u64 x ≡ value x % 2 ^ 64
unfolding low_u64 value
low_u64-value x = omega arith

-- The word `i` of a number.
word : U256 → ℕ → ℕ
word x i = low_u64 (wrapping_shr x (64 * i))

word-lt : (x : U256) (i : ℕ) → word x i < 2 ^ 64
unfolding word
word-lt x i = omega (arith, low_u64-value (wrapping_shr x (64 * i)))

top_word : (x : U256) → low_u64 (wrapping_shr x 192) ≡ word x 3
unfolding word
top_word x = refl

word-value : (x : U256) (i : ℕ) → i < 4 → IsU256 x → word x i ≡ value x / 2 ^ (64 * i) % 2 ^ 64
unfolding word
word-value x i b v =
    let shift = (shift-value x (64 * i) v).1 in
    let small : 64 * i % 256 ≡ 64 * i = omega arith in
    let shifted : value (wrapping_shr x (64 * i)) ≡ value x / 2 ^ (64 * i) = rw small at shift in
    omega (arith, low_u64-value (wrapping_shr x (64 * i)))

value-start : value (record { high = 0; low = 0 }) ≡ 0
unfolding value
value-start = refl

no_overflow :
    (a b : Bool) {m n : ℕ}
    → a ≡ leb (2 ^ 256) m
    → b ≡ leb (2 ^ 256) n
    → m < 2 ^ 256
    → n < 2 ^ 256
    → (a || b) ≡ false
no_overflow a b e f h k = ground arith

module _ (x rhs : U256) (v : IsU256 x) (w : IsU256 rhs) where
  mul_round-value :
      (i : ℕ) (ret : U256)
      → i < 4
      → IsU256 ret
      → (value (mul_round x rhs i ret)
          ≡ (value ret + value x * word rhs i * 2 ^ (64 * i)) % 2 ^ 256)
        × IsU256 (mul_round x rhs i ret)
  unfolding mul_round word
  mul_round-value i ret b r =
      let to_mul = low_u64 (wrapping_shr rhs (64 * i)) in
      let product = mul_u64-value x to_mul v (word-lt rhs i) in
      let shift = (shift-value (mul_u64 x to_mul).0 (64 * i) product.2).0 in
      let small : 64 * i % 256 ≡ 64 * i = omega arith in
      let shifted = rw small at shift in
      let sum =
        wrapping_add-value ret (wrapping_shl (mul_u64 x to_mul).0 (64 * i)) r
          (wrapping_shl-IsU256 (mul_u64 x to_mul).0 (64 * i)) in
      let split : (value x * to_mul / 2 ^ 256 * 2 ^ 256 + value x * to_mul % 2 ^ 256) * 2 ^ (64 * i)
          ≡ value x * to_mul * 2 ^ (64 * i) =
        ap (λ t. t * 2 ^ (64 * i)) (div-add-mod' (value x * to_mul) (2 ^ 256)) in
      let part : value (mul_u64 x to_mul).0 * 2 ^ (64 * i)
          ≡ value x * to_mul % 2 ^ 256 * 2 ^ (64 * i) =
        ap (λ t. t * 2 ^ (64 * i)) product.0 in
      (omega (arith, sum.0, shifted, part, split), sum.1)

  -- The four words of the factor, of which the last one is not shifted.
  overflowing_mul-words :
      (value (overflowing_mul x rhs).0
        ≡ (value x * word rhs 0
            + value x * word rhs 1 * 2 ^ 64
            + value x * word rhs 2 * 2 ^ 128
            + value x * word rhs 3)
          % 2 ^ 256)
      × (word rhs 3 ≡ 0 → (overflowing_mul x rhs).1 ≡ false)
      × IsU256 (overflowing_mul x rhs).0
  unfolding overflowing_mul
  overflowing_mul-words =
      let start : U256 = record { high = 0; low = 0 } in
      let r₀ = mul_round-value 0 start (omega arith) (omega arith, omega arith) in
      let ret₀ = mul_round x rhs 0 start in
      let r₁ = mul_round-value 1 ret₀ (omega arith) r₀.1 in
      let ret₁ = mul_round x rhs 1 ret₀ in
      let r₂ = mul_round-value 2 ret₁ (omega arith) r₁.1 in
      let ret₂ = mul_round x rhs 2 ret₁ in
      let product = mul_u64-value x (word rhs 3) v (word-lt rhs 3) in
      let sum = overflowing_add-value ret₂ (mul_u64 x (word rhs 3)).0 r₂.1 product.2 in
      let fits = value-lt ret₂ r₂.1 in
      rw (top_word rhs) (
        omega (arith, r₀.0, r₁.0, r₂.0, product.0, sum.0, value-start),
        λ z.
            let empty : value x * word rhs 3 ≡ value x * 0 = ap (λ t. value x * t) z in
            no_overflow (mul_u64 x (word rhs 3)).1
              (overflowing_add ret₂ (mul_u64 x (word rhs 3)).0).1 product.1 sum.1 (omega arith)
              (omega (arith, product.0, fits)),
        sum.2,
      )

  -- For two numbers below 2^256, overflowing_mul gives, modulo 2^256, the first times the second
  -- without its top 64 bits, plus the first times these 64 bits taken as a number of their own;
  -- with a second number below 2^192 no overflow is flagged.
  pub overflowing_mul-value :
      (value (overflowing_mul x rhs).0
        ≡ (value x * (value rhs % 2 ^ 192) + value x * (value rhs / 2 ^ 192)) % 2 ^ 256)
      × ((ltb (value rhs) (2 ^ 192) && (overflowing_mul x rhs).1) ≡ false)
      × IsU256 (overflowing_mul x rhs).0
  overflowing_mul-value =
      let (total, quiet, fits) = overflowing_mul-words in
      let w₀ = word-value rhs 0 (omega arith) w in
      let w₁ = word-value rhs 1 (omega arith) w in
      let w₂ = word-value rhs 2 (omega arith) w in
      let w₃ = word-value rhs 3 (omega arith) w in
      let bound = value-lt rhs w in
      let low : word rhs 0 + word rhs 1 * 2 ^ 64 + word rhs 2 * 2 ^ 128 ≡ value rhs % 2 ^ 192 =
        omega arith in
      let high : word rhs 3 ≡ value rhs / 2 ^ 192 = omega arith in
      let low_product = ap (λ t. value x * t) low in
      let high_product = ap (λ t. value x * t) high in
      (
        omega (arith, total, low_product, high_product),
        elim (Bool-cases (ltb (value rhs) (2 ^ 192))) [
          | inl small ↦ rw (small, quiet (ground (arith, high))) refl
          | inr large ↦ rw large refl
        ],
        fits,
      )

  -- With a factor below 2^192 the product is right modulo 2^256, and no overflow is flagged.
  pub overflowing_mul-exact :
      value rhs < 2 ^ 192
      → (value (overflowing_mul x rhs).0 ≡ value x * value rhs % 2 ^ 256)
        × ((overflowing_mul x rhs).1 ≡ false)
        × IsU256 (overflowing_mul x rhs).0
  overflowing_mul-exact small =
      let (total, quiet, fits) = overflowing_mul-value in
      let whole : value rhs % 2 ^ 192 ≡ value rhs = omega arith in
      let empty : value rhs / 2 ^ 192 ≡ 0 = omega arith in
      let below : ltb (value rhs) (2 ^ 192) ≡ true = ground arith in
      (
        omega (arith, total, ap (λ (t : ℕ). value x * t) whole, ap (λ (t : ℕ). value x * t) empty),
        rw below at quiet,
        fits,
      )

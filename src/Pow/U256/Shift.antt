-- ===== src/Pow/U256/Shift.antt =====
-- The shifts of the 256-bit integers of bitcoin/src/pow.rs multiply and divide by powers of two.
use rust_riecoin.Base.{
  ℕ, zero, suc, ◌+◌, ◌-◌, ◌*◌, ◌/◌, ◌%◌, ◌^◌, ◌<◌, ◌≤◌, ◌≡◌, sym, ap, ◌∙◌, arith, Bool-cases, inl,
  inr, leb, ltb, true, if◌then◌else◌,
}
use native.Mathlib.Nat.{
  mul-le-mul_right, mod-lt, div-add-mod', div-lt_iff_lt-mul, div-eq_of_lt-le, div-le_self,
}
use rust_riecoin.Base.Powers.{factor_pos, pow_split, completing}
use rust_riecoin.Pow.U256.{U256, wrapping_shl, wrapping_shr}
use rust_riecoin.Pow.U256.Laws.{value, IsU256}

-- A half that is multiplied by a power of two `p`, where `q` is the power that completes `2 ^ 128`.
scaled :
    (v p q : ℕ)
    → p * q ≡ 2 ^ 128
    → v < 2 ^ 128
    → (v * p ≡ v / q * 2 ^ 128 + v % q * p)
      × (v * p % 2 ^ 128 ≡ v % q * p)
      × (v / q < p)
      × (v % q * p + p ≤ 2 ^ 128)
scaled v p q e h =
    let positive : 0 < q = factor_pos p q (2 ^ 128 - 1) e in
    let below : v % q < q = mod-lt v positive in
    let top : (v % q + 1) * p ≤ q * p = mul-le-mul_right p (omega arith) in
    let quotient : v / q < p = (div-lt_iff_lt-mul positive).1 (omega arith) in
    let whole : v / q * (p * q) ≡ v / q * 2 ^ 128 = ap (λ t. v / q * t) e in
    let multiplied : (v / q * q + v % q) * p ≡ v * p = ap (λ t. t * p) (div-add-mod' v q) in
    let small : v % q * p + p ≤ 2 ^ 128 = omega arith in
    let parts : v * p ≡ v / q * 2 ^ 128 + v % q * p = omega arith in
    (parts, omega (arith, quotient, small, parts), quotient, small)

-- Both halves multiplied, with what the low one gives to the high one.
shl_halves :
    (high low p q : ℕ)
    → p * q ≡ 2 ^ 128
    → high < 2 ^ 128
    → low < 2 ^ 128
    → (high * p % 2 ^ 128 + low / q) % 2 ^ 128 * 2 ^ 128 + low * p % 2 ^ 128
      ≡ (high * 2 ^ 128 + low) * p % 2 ^ 256
shl_halves high low p q e h l =
    let a = scaled high p q e h in let b = scaled low p q e l in omega arith

shl_word :
    (high low p q : ℕ)
    → p * q ≡ 2 ^ 128
    → low < 2 ^ 128
    → low * p % 2 ^ 128 * 2 ^ 128 ≡ (high * 2 ^ 128 + low) * (2 ^ 128 * p) % 2 ^ 256
shl_word high low p q e l = let b = scaled low p q e l in omega arith

-- Both halves divided, with what the high one gives to the low one.
shr_halves :
    (high low p q : ℕ)
    → p * q ≡ 2 ^ 128
    → high < 2 ^ 128
    → low < 2 ^ 128
    → high / p * 2 ^ 128 + (low / p + high * q % 2 ^ 128) % 2 ^ 128 ≡ (high * 2 ^ 128 + low) / p
shr_halves high low p q e h l =
    let e' : q * p ≡ 2 ^ 128 = omega arith in
    let a = scaled high q p e' h in
    let b = scaled low q p e' l in
    let positive : 0 < p = factor_pos q p (2 ^ 128 - 1) e' in
    let split_high = div-add-mod' high p in
    let split_low = div-add-mod' low p in
    let rest = mod-lt low positive in
    let whole : high % p * (q * p) ≡ high % p * 2 ^ 128 = ap (λ t. high % p * t) e' in
    let exact : (low / p + high * q % 2 ^ 128) % 2 ^ 128 ≡ low / p + high % p * q =
      omega (arith, a.1, b.2, a.3) in
    let quotient : (high * 2 ^ 128 + low) / p ≡ high / p * 2 ^ 128 + (low / p + high % p * q) =
      div-eq_of_lt-le p (omega (arith, split_high, split_low, whole))
        (omega (arith, split_high, split_low, whole, rest)) in
    rw exact (sym quotient)

shr_word :
    (high low p : ℕ) → 0 < p → low < 2 ^ 128 → high / p ≡ (high * 2 ^ 128 + low) / (2 ^ 128 * p)
shr_word high low p positive l =
    let split = div-add-mod' high p in
    let rest = mod-lt high positive in
    let top : (high % p + 1) * 2 ^ 128 ≤ p * 2 ^ 128 = mul-le-mul_right (2 ^ 128) (omega arith) in
    sym (div-eq_of_lt-le (2 ^ 128 * p) (omega (arith, split)) (omega (arith, split, rest, top)))

-- Without bits to shift by, nothing goes from one half to the other.
guarded_shl :
    (high low b : ℕ)
    → low < 2 ^ 128
    → (if ltb 0 b
        then (high * 2 ^ b % 2 ^ 128 + low / 2 ^ (128 - b)) % 2 ^ 128
        else high * 2 ^ b % 2 ^ 128)
      ≡ (high * 2 ^ b % 2 ^ 128 + low / 2 ^ (128 - b)) % 2 ^ 128
guarded_shl high low zero l = omega arith
guarded_shl high low (suc b) l = ground arith

guarded_shr :
    (high low b : ℕ)
    → low < 2 ^ 128
    → (if ltb 0 b then (low / 2 ^ b + high * 2 ^ (128 - b) % 2 ^ 128) % 2 ^ 128 else low / 2 ^ b)
      ≡ (low / 2 ^ b + high * 2 ^ (128 - b) % 2 ^ 128) % 2 ^ 128
guarded_shr high low zero l = omega arith
guarded_shr high low (suc b) l = ground arith

high_shift : (n : ℕ) → leb 128 (n % 256) ≡ true → 2 ^ (n % 256) ≡ 2 ^ 128 * 2 ^ (n % 256 % 128)
high_shift n word =
    let same : n % 256 ≡ 128 + n % 256 % 128 = ground arith in
    ap (λ k. 2 ^ k) same ∙ pow_split 128 (n % 256 % 128)

-- For a number below 2^256 and any number of bits, wrapping_shl multiplies by the power of two of
-- the bits modulo 256, modulo 2^256, and wrapping_shr divides by it.
pub shift-value :
    (x : U256) (n : ℕ)
    → IsU256 x
    → (value (wrapping_shl x n) ≡ value x * 2 ^ (n % 256) % 2 ^ 256)
      × (value (wrapping_shr x n) ≡ value x / 2 ^ (n % 256))
unfolding wrapping_shl wrapping_shr value
shift-value x n h =
    let b = n % 256 % 128 in
    let pq = completing 128 b (omega arith) in
    let positive : 0 < 2 ^ b = factor_pos (2 ^ (128 - b)) (2 ^ b) (2 ^ 128 - 1) (omega arith) in
    elim (Bool-cases (leb 128 (n % 256))) [
      | inl word ↦ (
        rw (word, high_shift n word)
            (omega (arith, shl_word x.high x.low (2 ^ b) (2 ^ (128 - b)) pq h.1)),
        rw (word, high_shift n word) (omega (arith, shr_word x.high x.low (2 ^ b) positive h.1)),
      )
      | inr bits ↦
          let same : 2 ^ (n % 256) ≡ 2 ^ b =
            (let small : n % 256 ≡ b = ground arith in ap (λ k. 2 ^ k) small) in
          (
            rw (bits, same, guarded_shl x.high x.low b h.1)
                (shl_halves x.high x.low (2 ^ b) (2 ^ (128 - b)) pq h.0 h.1),
            rw (bits, same, guarded_shr x.high x.low b h.1)
                (shr_halves x.high x.low (2 ^ b) (2 ^ (128 - b)) pq h.0 h.1),
          )
    ]

pub wrapping_shl-IsU256 : (x : U256) (n : ℕ) → IsU256 (wrapping_shl x n)
unfolding wrapping_shl
wrapping_shl-IsU256 x n = ground arith

pub wrapping_shr-IsU256 : (x : U256) (n : ℕ) → IsU256 x → IsU256 (wrapping_shr x n)
unfolding wrapping_shr
wrapping_shr-IsU256 x n h =
    let p = 2 ^ (n % 256 % 128) in
    let high = div-le_self x.high p in let low = div-le_self x.low p in ground arith

-- ===== src/Pow/Division/Bits.antt =====
-- The number of bits of a 256-bit integer, and the bits that the division of bitcoin/src/pow.rs sets.
use rust_riecoin.Base.{
  ℕ, zero, suc, ◌+◌, ◌-◌, ◌*◌, ◌/◌, ◌%◌, ◌^◌, ◌<◌, ◌≤◌, ◌≡◌, refl, ap, arith, Bool-cases, inl, inr,
  ltb, ◌==◌, min,
}
use native.Mathlib.Nat.{mul-le-mul_right, div-eq_of_lt-le}
use rust_riecoin.Base.Powers.{pow_double, pow_split, pow_pos, completing}
use rust_riecoin.Pow.U256.{U256}
use rust_riecoin.Pow.U256.Laws.{value, IsU256}
use rust_riecoin.Pow.Division.{bit_length, bits, set_bit, set_quotient_bit}

bit_length-zero : (fuel : ℕ) → bit_length fuel 0 ≡ 0
unfolding bit_length
bit_length-zero zero = refl
bit_length-zero (suc fuel) = refl

bit_length_lem :
    (fuel n : ℕ)
    → n < 2 ^ fuel
    → (n < 2 ^ bit_length fuel n)
      × (bit_length fuel n ≤ fuel)
      × (0 < n → 2 ^ bit_length fuel n ≤ 2 * n)
unfolding bit_length
bit_length_lem zero n h = (h, omega arith, λ p. omega arith)
bit_length_lem (suc fuel) n h =
    let rest = bit_length_lem fuel (n / 2) (omega (arith, pow_double fuel)) in
    elim (Bool-cases (n == 0)) [
      | inl empty ↦ rw empty (ground arith)
      | inr full ↦
          rw (full, pow_double (bit_length fuel (n / 2)))
            (
              omega (arith, rest.0),
              omega (arith, rest.1),
              λ p. elim (Bool-cases (n / 2 == 0)) [
                | inl small ↦
                    let zero_half : n / 2 ≡ 0 = ground arith in
                    rw (zero_half, bit_length-zero fuel) (omega arith)
                | inr large ↦ omega (arith, rest.2 (ground arith))
              ],
            )
    ]

-- The number of bits: the number is below that power of two and, if it is not zero, at least half
-- of it.
pub bits_lem :
    (x : U256)
    → IsU256 x
    → (value x < 2 ^ bits x) × (bits x ≤ 256) × (0 < value x → 2 ^ bits x ≤ 2 * value x)
unfolding bits value
bits_lem x h =
    let high = bit_length_lem 128 x.high h.0 in
    let low = bit_length_lem 128 x.low h.1 in
    let l = bit_length 128 x.high in
    let high_bits : 256 - (128 - l) ≡ 128 + l = omega (arith, high.1) in
    let low_bits : 128 - (128 - bit_length 128 x.low) ≡ bit_length 128 x.low =
      omega (arith, low.1) in
    elim (Bool-cases (ltb 0 x.high)) [
      | inl large ↦
          let positive : 0 < x.high = ground arith in
          let split = pow_split 128 l in
          rw (large, high_bits, split)
            (omega (arith, high.0), omega (arith, high.1), λ p. omega (arith, high.2 positive))
      | inr small ↦
          let empty : x.high ≡ 0 = ground arith in
          rw (small, low_bits, empty)
            (omega (arith, low.0), omega (arith, low.1), λ p. omega (arith, low.2 (omega arith)))
    ]

pub bits-zero : (x : U256) → value x ≡ 0 → bits x ≡ 0
unfolding bits value
bits-zero x e =
    let high : x.high ≡ 0 = omega arith in
    let low : x.low ≡ 0 = omega arith in rw (high, low, bit_length-zero 128) refl

pub bits-pos : (x : U256) → IsU256 x → 0 < value x → 0 < bits x
bits-pos x v p =
    let (top, _, _) = bits_lem x v in
    elim (Bool-cases (bits x == 0)) [
      | inl empty ↦ absurd (
          let z : bits x ≡ 0 = ground arith in
          let one : 2 ^ bits x ≡ 1 = rw z refl in omega (arith, top))
      | inr full ↦ ground arith
    ]

-- A number is a multiple.
abbrev pub IsMultiple : ℕ → ℕ → Type 0
IsMultiple p w = (q : ℕ) × (w ≡ q * p)

IsMultiple-half : (k w : ℕ) → IsMultiple (2 ^ suc k) w → IsMultiple (2 ^ k) w
IsMultiple-half k w (q, e) = (2 * q, omega (arith, ap (λ (t : ℕ). q * t) (pow_double k)))

-- There is room between a multiple and a larger multiple.
multiple_gap : (q r p : ℕ) → q * p < r * p → q * p + p ≤ r * p
multiple_gap q r p h = elim (Bool-cases (ltb q r)) [
  | inl below ↦ let next : (q + 1) * p ≤ r * p = mul-le-mul_right p (ground arith) in omega arith
  | inr above ↦ let back : r * p ≤ q * p = mul-le-mul_right p (ground arith) in absurd (omega arith)
]

set_bit-clear :
    (w k : ℕ)
    → IsMultiple (2 ^ suc k) w
    → w < 2 ^ 128
    → k < 128
    → (set_bit w k ≡ w + 2 ^ k) × IsMultiple (2 ^ k) (w + 2 ^ k) × (w + 2 ^ k < 2 ^ 128)
unfolding set_bit
set_bit-clear w k (q, e) h b =
    let double = pow_double k in
    let scaled : q * 2 ^ suc k ≡ q * (2 * 2 ^ k) = ap (λ t. q * t) double in
    let positive = pow_pos k in
    let quotient : w / 2 ^ k ≡ 2 * q = div-eq_of_lt-le (2 ^ k) (omega arith) (omega arith) in
    let whole = completing 128 (suc k) (omega arith) in
    let below : q * 2 ^ suc k < 2 ^ (128 - suc k) * 2 ^ suc k = omega arith in
    let gap = multiple_gap q (2 ^ (128 - suc k)) (2 ^ suc k) below in
    (rw quotient (ground arith), (2 * q + 1, omega arith), omega arith)

-- The bits below `s` of a quotient are not set yet.
abbrev pub IsClear : ℕ → U256 → Type 0
IsClear s ret = IsMultiple (2 ^ min s 128) ret.low × IsMultiple (2 ^ (s - 128)) ret.high

pub IsClear-next : (s : ℕ) (ret : U256) → IsClear (suc s) ret → IsClear s ret
IsClear-next s ret c = elim (Bool-cases (ltb s 128)) [
  | inl low ↦
      let a : min (suc s) 128 ≡ suc s = ground arith in
      let b : min s 128 ≡ s = ground arith in
      let d : suc s - 128 ≡ 0 = ground arith in
      let f : s - 128 ≡ 0 = ground arith in
      rw (b, f) (IsMultiple-half s ret.low (rw a at c.0), rw d at c.1)
  | inr high ↦
      let a : min (suc s) 128 ≡ 128 = ground arith in
      let b : min s 128 ≡ 128 = ground arith in
      let d : suc s - 128 ≡ suc (s - 128) = ground arith in
      rw b (rw a at c.0, IsMultiple-half (s - 128) ret.high (rw d at c.1))
]

pub set_quotient_bit-value :
    (ret : U256) (s : ℕ)
    → IsU256 ret
    → s < 256
    → IsClear (suc s) ret
    → (value (set_quotient_bit ret s) ≡ value ret + 2 ^ s)
      × IsU256 (set_quotient_bit ret s)
      × IsClear s (set_quotient_bit ret s)
unfolding set_quotient_bit value
set_quotient_bit-value ret s v b c = elim (Bool-cases (ltb s 128)) [
  | inl low ↦
      let a : min (suc s) 128 ≡ suc s = ground arith in
      let m : min s 128 ≡ s = ground arith in
      let d : suc s - 128 ≡ 0 = ground arith in
      let f : s - 128 ≡ 0 = ground arith in
      let k : s % 128 ≡ s = ground arith in
      let set = set_bit-clear ret.low s (rw a at c.0) v.1 (ground arith) in
      rw (low, m, f, k, set.0) (omega arith, (v.0, set.2), (set.1, rw d at c.1))
  | inr high ↦
      let a : min (suc s) 128 ≡ 128 = ground arith in
      let m : min s 128 ≡ 128 = ground arith in
      let d : suc s - 128 ≡ suc (s - 128) = ground arith in
      let k : s % 128 ≡ s - 128 = ground arith in
      let set = set_bit-clear ret.high (s - 128) (rw d at c.1) v.0 (omega arith) in
      let whole = completing s 128 (ground arith) in
      rw (high, m, k, set.0) (omega arith, (set.2, v.1), (rw a at c.0, set.1))
]

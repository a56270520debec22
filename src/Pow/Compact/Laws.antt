-- ===== src/Pow/Compact/Laws.antt =====
-- What a compact target stands for, and the bytes of a target, of bitcoin/src/pow.rs.
use rust_riecoin.Base.{
  ℕ, ◌+◌, ◌-◌, ◌*◌, ◌/◌, ◌%◌, ◌^◌, ◌<◌, ◌≤◌, ◌≡◌, refl, sym, ap, ◌∙◌, arith, Bool-cases, inl, inr,
  true, false, if◌then◌else◌, ltb, leb,
}
use rust_riecoin.Base.Powers.{pow_split, pow_pos}
use native.Mathlib.Nat.{
  pow-le-pow_right, mul-le-mul_right, div-lt_iff_lt-mul, mod-eq_of_lt, div-le_self,
}
use rust_riecoin.Pow.U256.{U256, wrapping_shr}
use rust_riecoin.Pow.U256.Laws.{value, IsU256}
use rust_riecoin.Pow.U256.Shift.{shift-value, wrapping_shl-IsU256}
use rust_riecoin.Pow.Division.{bits, zero_u256}
use rust_riecoin.Pow.Division.Bits.{bits_lem}
use rust_riecoin.Pow.Product.{low_u64}
use rust_riecoin.Pow.Compact.{unpack, from_compact, leading_bytes}

pub value-small : (m : ℕ) → value (record { high = 0; low = m }) ≡ m
unfolding value
value-small m = omega arith

low-value : (x : U256) → x.low % 2 ^ 128 ≡ value x % 2 ^ 128
unfolding value
low-value x = omega arith

value-zero : value zero_u256 ≡ 0
unfolding value
value-zero = refl

-- In terms of the mantissa and the exponent.
pub from_compact-unpack :
    (c : ℕ)
    → c < 2 ^ 32
    → let (mant, expt) = unpack c in
      (value (from_compact c).inner
        ≡ (if ltb 0x7f_ffff mant then 0 else mant * 2 ^ (expt % 256) % 2 ^ 256))
      × IsU256 (from_compact c).inner
unfolding from_compact
from_compact-unpack c h =
    let m = (unpack c).0 in
    elim (Bool-cases (ltb 0x7f_ffff m)) [
      | inl negative ↦ rw negative (value-zero, (omega arith, omega arith))
      | inr fine ↦
          let small : m < 2 ^ 128 = ground arith in
          let shift =
            (shift-value (record { high = 0; low = m }) (unpack c).1 (omega arith, small)).0 in
          rw fine (
            rw (value-small m) at shift,
            wrapping_shl-IsU256 (record { high = 0; low = m }) (unpack c).1,
          )
    ]

-- The bytes of a number: its size, and the first three of them.
pub byte_size :
    (x : U256)
    → IsU256 x
    → let size = (bits x + 7) / 8 in
      (value x < 2 ^ (8 * size)) × (size ≤ 32) × (0 < value x → 2 ^ (8 * size) ≤ 256 * value x)
byte_size x v =
    let (top, most, half) = bits_lem x v in
    let size = (bits x + 7) / 8 in
    let above : 2 ^ bits x ≤ 2 ^ (8 * size) = pow-le-pow_right (omega arith) (omega arith) in
    let below : 2 ^ (8 * size) ≤ 2 ^ (7 + bits x) = pow-le-pow_right (omega arith) (omega arith) in
    let split = pow_split 7 (bits x) in (omega arith, omega arith, λ p. omega (arith, half p))

pub leading_bytes-large :
    (x : U256) (size : ℕ)
    → IsU256 x
    → 3 < size
    → size ≤ 32
    → value x < 2 ^ (8 * size)
    → (leading_bytes x size ≡ value x / 2 ^ (8 * (size - 3)))
      × (value x / 2 ^ (8 * (size - 3)) < 2 ^ 24)
unfolding leading_bytes
leading_bytes-large x size v l s h =
    let k = 8 * (size - 3) in
    let small : k % 256 ≡ k = omega arith in
    let shift = (shift-value x k v).1 in
    let shifted : value (wrapping_shr x k) ≡ value x / 2 ^ k = rw small at shift in
    let split : 2 ^ (8 * size) ≡ 2 ^ 24 * 2 ^ k =
      (let e : 8 * size ≡ 24 + k = omega arith in ap (λ t. 2 ^ t) e ∙ pow_split 24 k) in
    let bound : value x / 2 ^ k < 2 ^ 24 = (div-lt_iff_lt-mul (pow_pos k)).1 (omega arith) in
    let large : leb size 3 ≡ false = ground arith in
    let low : (wrapping_shr x k).low % 2 ^ 128 ≡ value (wrapping_shr x k) % 2 ^ 128 =
      low-value (wrapping_shr x k) in
    (rw large (omega arith), bound)

unpack-eq :
    (c : ℕ)
    → unpack c ≡ (
        if leb (c / 2 ^ 24) 3
        then (c % 2 ^ 24 / 2 ^ (8 * (3 - c / 2 ^ 24)), 0)
        else (c % 2 ^ 24, 8 * (c / 2 ^ 24 - 3)))
unfolding unpack
unpack-eq c = refl

-- For a 32-bit compact target whose top byte is the size and whose other 24 bits are the digits:
-- if the size is at most 3, from_compact gives the digits divided by 2^(8(3 - size)), or 0 if the
-- quotient is above 0x7fffff; otherwise it gives the digits times 2^(8(size - 3) modulo 256),
-- modulo 2^256, or 0 if the digits are above 0x7fffff. The result is below 2^256.
pub from_compact-value :
    (c : ℕ)
    → c < 2 ^ 32
    → let size = c / 2 ^ 24 in
      let digits = c % 2 ^ 24 in
      (value (from_compact c).inner ≡ (
        if leb size 3
        then (if ltb 0x7f_ffff (digits / 2 ^ (8 * (3 - size)))
            then 0
            else digits / 2 ^ (8 * (3 - size)))
        else (if ltb 0x7f_ffff digits then 0 else digits * 2 ^ (8 * (size - 3) % 256) % 2 ^ 256)))
      × IsU256 (from_compact c).inner
from_compact-value c h =
    let size = c / 2 ^ 24 in
    let digits = c % 2 ^ 24 in
    let (whole, fits) = from_compact-unpack c h in
    let moved = digits / 2 ^ (8 * (3 - size)) in
    (
      elim (Bool-cases (leb size 3)) [
        | inl short ↦
            let read : unpack c ≡ (moved, 0) = rw (unpack-eq c, short) refl in
            let less = div-le_self digits (2 ^ (8 * (3 - size))) in
            let kept : moved * 1 % 2 ^ 256 ≡ moved = omega arith in
            rw short ((rw read at whole) ∙ ap (λ t. if ltb 0x7f_ffff moved then 0 else t) kept)
        | inr long ↦
            let read : unpack c ≡ (digits, 8 * (size - 3)) = rw (unpack-eq c, long) refl in
            rw long (rw read at whole)
      ],
      fits,
    )

-- A positive mantissa and a size are read back from a word.
pub packed-value :
    (m size : ℕ)
    → m < 2 ^ 23
    → 3 < size
    → size ≤ 33
    → m * 2 ^ (8 * (size - 3)) < 2 ^ 256
    → value (from_compact (m + size * 2 ^ 24)).inner ≡ m * 2 ^ (8 * (size - 3))
packed-value m size h l s b =
    let c = m + size * 2 ^ 24 in
    let top : c / 2 ^ 24 ≡ size = omega arith in
    let low : c % 2 ^ 24 ≡ m = omega arith in
    let large : leb size 3 ≡ false = ground arith in
    let read : unpack c ≡ (m, 8 * (size - 3)) = rw (unpack-eq c, top, low, large) refl in
    let fine : ltb 0x7f_ffff m ≡ false = ground arith in
    let small : 8 * (size - 3) % 256 ≡ 8 * (size - 3) = omega arith in
    let whole = (from_compact-unpack c (omega arith)).0 in
    (rw (read, fine, small) at whole) ∙ mod-eq_of_lt b

pub packed_small-value :
    (m size : ℕ)
    → m < 2 ^ 23
    → size ≤ 3
    → value (from_compact (m + size * 2 ^ 24)).inner ≡ m / 2 ^ (8 * (3 - size))
packed_small-value m size h s =
    let c = m + size * 2 ^ 24 in
    let top : c / 2 ^ 24 ≡ size = omega arith in
    let low : c % 2 ^ 24 ≡ m = omega arith in
    let few : leb size 3 ≡ true = ground arith in
    let read : unpack c ≡ (m / 2 ^ (8 * (3 - size)), 0) = rw (unpack-eq c, top, low, few) refl in
    let less = div-le_self m (2 ^ (8 * (3 - size))) in
    let fine : ltb 0x7f_ffff (m / 2 ^ (8 * (3 - size))) ≡ false = ground arith in
    let whole = (from_compact-unpack c (omega arith)).0 in
    let read_back = rw (read, fine) at whole in omega (arith, read_back)

pub leading_bytes-small :
    (x : U256) (size : ℕ)
    → size ≤ 3
    → value x < 2 ^ (8 * size)
    → leading_bytes x size ≡ value x * 2 ^ (8 * (3 - size))
unfolding leading_bytes low_u64
leading_bytes-small x size s h =
    let few : leb size 3 ≡ true = ground arith in
    let whole : 8 * size + 8 * (3 - size) ≡ 24 = omega arith in
    let split : 2 ^ 24 ≡ 2 ^ (8 * size) * 2 ^ (8 * (3 - size)) =
      ap (λ t. 2 ^ t) (sym whole) ∙ pow_split (8 * size) (8 * (3 - size)) in
    let q = 2 ^ (8 * (3 - size)) in
    let bound : (value x + 1) * q ≤ 2 ^ (8 * size) * q = mul-le-mul_right q (omega arith) in
    let positive = pow_pos (8 * (3 - size)) in
    let few_bits : 8 * size ≤ 24 = omega arith in
    let top : 2 ^ (8 * size) ≤ 2 ^ 24 = pow-le-pow_right {n = 2} (omega arith) few_bits in
    let low : x.low % 2 ^ 64 ≡ value x = omega (arith, low-value x) in rw (few, low) (omega arith)

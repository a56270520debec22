-- ===== src/Pow/U256.antt =====
-- The 256-bit integers of bitcoin/src/pow.rs: two `u128`, the high one first.
pub mod Laws
pub mod Digits
pub mod Shift
use rust_riecoin.Base.{
  ℕ, ◌+◌, ◌-◌, ◌*◌, ◌/◌, ◌%◌, ◌^◌, Bool, true, false, not, ◌&&◌, ◌||◌, ltb, leb, ◌==◌,
  if◌then◌else◌, List, ◌++◌, take, drop,
}
use rust_riecoin.Base.Bytes as Bytes

-- `u128::overflowing_add`, with the flag in the second place.
abbrev pub overflowing_add_u128 : ℕ → ℕ → ℕ × Bool
overflowing_add_u128 x y = ((x + y) % 2 ^ 128, leb (2 ^ 128) (x + y))

pub record U256 : Type 0 where
  pub high : ℕ
  pub low : ℕ

abbrev pub one : U256
one = record { high = 0; low = 1 }

-- The derived order: by the high half, then by the low one.
unfoldable pub lt : U256 → U256 → Bool
lt x y = ltb x.high y.high || (x.high == y.high && ltb x.low y.low)

-- `Not`: the complement of a `u128` is its distance from the greatest.
unfoldable pub complement : U256 → U256
complement x = record { high = 2 ^ 128 - 1 - x.high; low = 2 ^ 128 - 1 - x.low }

unfoldable pub overflowing_add : U256 → U256 → U256 × Bool
overflowing_add x y =
    let (high, overflow) = overflowing_add_u128 x.high y.high in
    let (low, low_overflow) = overflowing_add_u128 x.low y.low in
    let (carried, carry_overflow) = overflowing_add_u128 high 1 in
    if low_overflow
    then (record { high = carried; low = low }, overflow || carry_overflow)
    else (record { high = high; low = low }, overflow)

unfoldable pub wrapping_add : U256 → U256 → U256
unfolding overflowing_add
wrapping_add x y = (overflowing_add x y).0

unfoldable pub overflowing_sub : U256 → U256 → U256 × Bool
unfolding wrapping_add complement lt
overflowing_sub x y = (wrapping_add (wrapping_add x (complement y)) one, lt x y)

unfoldable pub wrapping_sub : U256 → U256 → U256
unfolding overflowing_sub
wrapping_sub x y = (overflowing_sub x y).0

unfoldable pub wrapping_inc : U256 → U256
wrapping_inc x =
    let low = (x.low + 1) % 2 ^ 128 in
    record { high = if low == 0 then (x.high + 1) % 2 ^ 128 else x.high; low = low }

-- One turn of the loop of mul_u64: the word that is written and the carry. `n` is a `u128`.
unfoldable pub mul_word : ℕ → ℕ → ℕ → ℕ × ℕ
mul_word rhs carry word =
    let n = (carry + rhs * word % 2 ^ 128) % 2 ^ 128 in (n % 2 ^ 64, n / 2 ^ 64)

-- The loop over the four words; `|` joins halves that have no bits in common.
unfoldable pub mul_u64 : U256 → ℕ → U256 × Bool
mul_u64 x rhs =
    let (w₀, c₀) = mul_word rhs 0 (x.low % 2 ^ 64) in
    let (w₁, c₁) = mul_word rhs c₀ (x.low / 2 ^ 64 % 2 ^ 64) in
    let (w₂, c₂) = mul_word rhs c₁ (x.high % 2 ^ 64) in
    let (w₃, carry) = mul_word rhs c₂ (x.high / 2 ^ 64 % 2 ^ 64) in
    (record { high = w₂ + w₃ * 2 ^ 64; low = w₀ + w₁ * 2 ^ 64 }, not (carry == 0))

unfoldable pub split_in_half : List ℕ → List ℕ × List ℕ
split_in_half a = (take 16 a, drop 16 a)

unfoldable pub from_le_bytes : List ℕ → U256
unfolding split_in_half
from_le_bytes a =
    let (high, low) = split_in_half a in
    record { high = Bytes.from_le_bytes low; low = Bytes.from_le_bytes high }

unfoldable pub to_le_bytes : U256 → List ℕ
to_le_bytes x = Bytes.to_le_bytes 16 x.low ++ Bytes.to_le_bytes 16 x.high

-- `x << bits` and `x >> bits` of a `u128`, for fewer than 128 bits.
abbrev pub shl_u128 : ℕ → ℕ → ℕ
shl_u128 x bits = x * 2 ^ bits % 2 ^ 128

abbrev pub shr_u128 : ℕ → ℕ → ℕ
shr_u128 x bits = x / 2 ^ bits

unfoldable pub wrapping_shl : U256 → ℕ → U256
wrapping_shl x rhs =
    let shift = rhs % 256 in
    let word_shift = leb 128 shift in
    let bit_shift = shift % 128 in
    let shifted = shl_u128 x.high bit_shift in
    if word_shift then record { high = shl_u128 x.low bit_shift; low = 0 } else record {
      high =
          if ltb 0 bit_shift
          then (shifted + shr_u128 x.low (128 - bit_shift)) % 2 ^ 128
          else shifted;
      low = shl_u128 x.low bit_shift;
    }

unfoldable pub wrapping_shr : U256 → ℕ → U256
wrapping_shr x rhs =
    let shift = rhs % 256 in
    let word_shift = leb 128 shift in
    let bit_shift = shift % 128 in
    let shifted = shr_u128 x.low bit_shift in
    if word_shift then record { high = 0; low = shr_u128 x.high bit_shift } else record {
      high = shr_u128 x.high bit_shift;
      low =
          if ltb 0 bit_shift
          then (shifted + shl_u128 x.high (128 - bit_shift)) % 2 ^ 128
          else shifted;
    }

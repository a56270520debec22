-- ===== src/Pow/Division.antt =====
-- The division of 256-bit integers of bitcoin/src/pow.rs, and what is built on it.
pub mod Bits
pub mod Loop
pub mod Laws
use rust_riecoin.Base.{
  ℕ, zero, suc, ◌+◌, ◌-◌, ◌*◌, ◌/◌, ◌%◌, ◌^◌, Bool, not, ◌&&◌, Option, none, some, ltb, leb, ◌==◌,
  if◌then◌else◌,
}
use rust_riecoin.Pow.U256.{
  U256, one, lt, complement, wrapping_sub, wrapping_inc, wrapping_shl, wrapping_shr,
}

-- The number of binary digits of a number, of at most `fuel`.
unfoldable pub bit_length : ℕ → ℕ → ℕ
bit_length zero n = 0
bit_length (suc fuel) n = let rest = bit_length fuel (n / 2) in if n == 0 then 0 else suc rest

-- `u128::leading_zeros`
unfoldable pub leading_zeros : ℕ → ℕ
leading_zeros n = 128 - bit_length 128 n

unfoldable pub bits : U256 → ℕ
unfolding leading_zeros
bits x = if ltb 0 x.high then 256 - leading_zeros x.high else 128 - leading_zeros x.low

-- `word |= 1 << k` of a `u128`.
unfoldable pub set_bit : ℕ → ℕ → ℕ
set_bit word k = if word / 2 ^ k % 2 == 1 then word else word + 2 ^ k

-- `ret[1 - (shift / 128)] |= 1 << (shift % 128)`, where `ret` is the high half and the low one.
unfoldable pub set_quotient_bit : U256 → ℕ → U256
unfolding set_bit
set_quotient_bit ret shift =
    if ltb shift 128
    then record ret { low = set_bit ret.low (shift % 128) }
    else record ret { high = set_bit ret.high (shift % 128) }

-- The body of the loop: the quotient and the rest after one bit.
unfoldable pub divide_bit : ℕ → U256 → U256 → U256 → U256 × U256
unfolding set_quotient_bit wrapping_sub lt
divide_bit shift sub_copy shift_copy ret =
    if not (lt sub_copy shift_copy)
    then (set_quotient_bit ret shift, wrapping_sub sub_copy shift_copy)
    else (ret, sub_copy)

-- The loop, from `shift` down to 0.
unfoldable pub long_division : ℕ → U256 → U256 → U256 → U256 × U256
unfolding divide_bit
long_division zero sub_copy shift_copy ret = divide_bit 0 sub_copy shift_copy ret
long_division (suc shift) sub_copy shift_copy ret =
    let next = divide_bit (suc shift) sub_copy shift_copy ret in
    long_division shift next.1 (wrapping_shr shift_copy 1) next.0

abbrev pub zero_u256 : U256
zero_u256 = record { high = 0; low = 0 }

abbrev pub max_u256 : U256
max_u256 = record { high = 2 ^ 128 - 1; low = 2 ^ 128 - 1 }

-- `none` is the panic for a division by zero.
unfoldable pub div_rem : U256 → U256 → Option (U256 × U256)
unfolding bits long_division wrapping_shl
div_rem x rhs =
    let my_bits = bits x in
    let your_bits = bits rhs in
    let shift = my_bits - your_bits in
    if your_bits == 0
    then none
    else if ltb my_bits your_bits
    then some (zero_u256, x)
    else some (long_division shift x (wrapping_shl rhs shift) zero_u256)

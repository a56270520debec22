-- ===== src/Pow/Product.antt =====
-- The product of 256-bit integers of bitcoin/src/pow.rs.
pub mod Laws
use rust_riecoin.Base.{
  ℕ, ◌*◌, ◌%◌, ◌^◌, Bool, true, false, ◌&&◌, ◌||◌, Option, none, some, if◌then◌else◌,
}
use rust_riecoin.Pow.U256.{
  U256, overflowing_add, overflowing_sub, wrapping_add, mul_u64, wrapping_shl, wrapping_shr,
}

unfoldable pub low_u64 : U256 → ℕ
low_u64 x = x.low % 2 ^ 64

-- One turn of the loop over the three low words of the factor.
unfoldable pub mul_round : U256 → U256 → ℕ → U256 → U256
mul_round x rhs i ret =
    let to_mul = low_u64 (wrapping_shr rhs (64 * i)) in
    wrapping_add ret (wrapping_shl (mul_u64 x to_mul).0 (64 * i))

unfoldable pub overflowing_mul : U256 → U256 → U256 × Bool
overflowing_mul x rhs =
    let start : U256 = record { high = 0; low = 0 } in
    let ret = mul_round x rhs 2 (mul_round x rhs 1 (mul_round x rhs 0 start)) in
    let to_mul = low_u64 (wrapping_shr rhs 192) in
    let (mul_res, top_overflow) = mul_u64 x to_mul in
    let (sum, overflow) = overflowing_add ret mul_res in (sum, top_overflow || overflow)

-- The operators `+`, `-` and `*`: with debug assertions, an overflow that is flagged panics.
unfoldable pub checked_result : Bool → U256 × Bool → Option U256
checked_result debug (result, overflow) = if debug && overflow then none else some result

module _ (debug : Bool) where
  unfoldable pub add : U256 → U256 → Option U256
  add x rhs = checked_result debug (overflowing_add x rhs)

  unfoldable pub sub : U256 → U256 → Option U256
  sub x rhs = checked_result debug (overflowing_sub x rhs)

  unfoldable pub mul : U256 → U256 → Option U256
  mul x rhs = checked_result debug (overflowing_mul x rhs)

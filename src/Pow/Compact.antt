-- ===== src/Pow/Compact.antt =====
-- Compact targets of bitcoin/src/pow.rs and primitives/src/pow.rs: a CompactTarget is its `u32`. Where
-- the source masks or joins bits of a word, the model divides and adds.
pub mod Laws
pub mod Kept
use rust_riecoin.Base.{ℕ, ◌+◌, ◌-◌, ◌*◌, ◌/◌, ◌%◌, ◌^◌, ltb, leb, ◌==◌, if◌then◌else◌}
use rust_riecoin.Pow.U256.{U256, wrapping_shl, wrapping_shr}
use rust_riecoin.Pow.Division.{bits, zero_u256}
use rust_riecoin.Pow.Product.{low_u64}
use rust_riecoin.Pow.Target.{Target}

-- The mantissa and the exponent in bits.
unfoldable pub unpack : ℕ → ℕ × ℕ
unpack c =
    let unshifted_expt = c / 2 ^ 24 in
    if leb unshifted_expt 3
    then (c % 2 ^ 24 / 2 ^ (8 * (3 - unshifted_expt)), 0)
    else (c % 2 ^ 24, 8 * (c / 2 ^ 24 - 3))

unfoldable pub from_compact : ℕ → Target
from_compact c =
    let (mant, expt) = unpack c in
    if ltb 0x7f_ffff mant
    then record { inner = zero_u256 }
    else record { inner = wrapping_shl (record { high = 0; low = mant }) expt }

-- The first three bytes of a number of `size` bytes.
unfoldable pub leading_bytes : U256 → ℕ → ℕ
leading_bytes x size =
    if leb size 3
    then low_u64 x * 2 ^ (8 * (3 - size)) % 2 ^ 64 % 2 ^ 32
    else (wrapping_shr x (8 * (size - 3))).low % 2 ^ 32

unfoldable pub to_compact_lossy : Target → ℕ
to_compact_lossy t =
    let size = (bits t.inner + 7) / 8 in
    let compact = leading_bytes t.inner size in
    if compact / 2 ^ 23 % 2 == 1
    then compact / 2 ^ 8 + (size + 1) * 2 ^ 24
    else compact + size * 2 ^ 24

-- ===== src/Primitives/Sequence.antt =====
-- primitives/src/sequence.rs: the sequence number of an input. Its bits are read by division: bit 31
-- disables the relative lock time, bit 22 tells intervals of 512 seconds from blocks, and the low 16
-- bits are the value.
pub mod Laws
use rust_riecoin.Base.{
  ℕ, ◌+◌, ◌-◌, ◌/◌, ◌%◌, ◌^◌, Bool, not, ◌&&◌, Option, none, some, ltb, ◌==◌, if◌then◌else◌,
}

-- The variants of primitives/src/locktime/relative.rs.
pub data RelativeLockTime : Type 0 where
  blocks time : ℕ → RelativeLockTime

abbrev pub max : ℕ
max = 0xffff_ffff

abbrev pub min_no_rbf : ℕ
min_no_rbf = 0xffff_fffe

abbrev pub lock_type_mask : ℕ
lock_type_mask = 0x0040_0000

unfoldable pub enables_absolute_lock_time : ℕ → Bool
enables_absolute_lock_time n = not (n == max)

unfoldable pub is_final : ℕ → Bool
unfolding enables_absolute_lock_time
is_final n = not (enables_absolute_lock_time n)

unfoldable pub is_rbf : ℕ → Bool
is_rbf n = ltb n min_no_rbf

-- `n & 0x8000_0000 == 0`
unfoldable pub is_relative_lock_time : ℕ → Bool
is_relative_lock_time n = n / 2 ^ 31 % 2 == 0

-- `n & 0x0040_0000 == 0`
unfoldable pub is_height_locked : ℕ → Bool
unfolding is_relative_lock_time
is_height_locked n = is_relative_lock_time n && (n / 2 ^ 22 % 2 == 0)

unfoldable pub is_time_locked : ℕ → Bool
unfolding is_relative_lock_time
is_time_locked n = is_relative_lock_time n && ltb 0 (n / 2 ^ 22 % 2)

abbrev pub from_height : ℕ → ℕ
from_height height = height

-- `intervals | 0x0040_0000`, where `intervals` has 16 bits.
unfoldable pub from_512_second_intervals : ℕ → ℕ
from_512_second_intervals intervals = intervals + lock_type_mask

-- `None` stands for `TimeOverflowError`, which holds the argument.
unfoldable pub from_seconds_floor : ℕ → Option ℕ
unfolding from_512_second_intervals
from_seconds_floor seconds =
    if ltb (seconds / 512) (2 ^ 16) then some (from_512_second_intervals (seconds / 512)) else none

-- The sum is one of `u32`, which wraps in release mode.
unfoldable pub from_seconds_ceil : ℕ → Option ℕ
unfolding from_512_second_intervals
from_seconds_ceil seconds =
    let intervals = (seconds + 511) % 2 ^ 32 / 512 in
    if ltb intervals (2 ^ 16) then some (from_512_second_intervals intervals) else none

abbrev pub low_u16 : ℕ → ℕ
low_u16 n = n % 2 ^ 16

unfoldable pub to_relative_lock_time : ℕ → Option RelativeLockTime
unfolding is_relative_lock_time is_time_locked
to_relative_lock_time n =
    if not (is_relative_lock_time n)
    then none
    else if is_time_locked n
    then some (time (low_u16 n))
    else some (blocks (low_u16 n))

-- ===== src/Primitives/Sequence/Laws.antt =====
-- Relative lock times in a sequence number.
use rust_riecoin.Base.{◌↔◌, ◌*◌, ◌+◌, ℕ, ◌+◌, ◌-◌, ◌*◌, ◌^◌, ◌≤◌, ◌<◌, ◌≡◌, some, arith}
use rust_riecoin.Primitives.Sequence.{
  blocks, time, is_relative_lock_time, is_time_locked, from_height, from_512_second_intervals,
  from_seconds_floor, from_seconds_ceil, to_relative_lock_time,
}

-- A height or a number of intervals below 2^16 that is put into a sequence number is read back
-- from it as a relative lock time of the same unit.
pub to_relative_lock_time-from :
    (n : ℕ)
    → n < 2 ^ 16
    → (to_relative_lock_time (from_height n) ≡ some (blocks n))
      × (to_relative_lock_time (from_512_second_intervals n) ≡ some (time n))
unfolding to_relative_lock_time is_relative_lock_time is_time_locked from_512_second_intervals
to_relative_lock_time-from n h = (ground arith, ground arith)

-- With wrapping u32 addition, from_seconds_ceil gives 0 intervals for each of the last 511 values
-- of a u32.
pub from_seconds_ceil-wraps :
    (seconds : ℕ)
    → 2 ^ 32 - 511 ≤ seconds
    → seconds < 2 ^ 32
    → from_seconds_ceil seconds ≡ some (from_512_second_intervals 0)
unfolding from_seconds_ceil from_512_second_intervals
from_seconds_ceil-wraps seconds low high = ground arith

-- For seconds below 2^32 - 511 and a number of intervals below 2^16: from_seconds_floor gives
-- these intervals exactly if they are the greatest number whose length is at most the seconds, and
-- from_seconds_ceil exactly if they are the least whose length is at least the seconds.
pub from_seconds_bounds :
    (seconds k : ℕ)
    → seconds < 2 ^ 32 - 511
    → k < 2 ^ 16
    → ((from_seconds_floor seconds ≡ some (from_512_second_intervals k))
        ↔ ((k * 512 ≤ seconds) × (seconds < k * 512 + 512)))
      × ((from_seconds_ceil seconds ≡ some (from_512_second_intervals k))
          ↔ ((seconds ≤ k * 512) × (k * 512 < seconds + 512)))
unfolding from_seconds_floor from_seconds_ceil from_512_second_intervals
from_seconds_bounds seconds k h hk =
    ((λ e. ground arith, λ e. ground arith), (λ e. ground arith, λ e. ground arith))

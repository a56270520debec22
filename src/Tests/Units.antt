-- ===== src/Tests/Units.antt =====
-- Amounts, weights and lock times.
use rust_riecoin.Base.{◌<◌, ◌≤◌, ◌*◌, ◌+◌, ◌≡◌, ◌↔◌, refl, none, some, arith}
use rust_riecoin.Units.Amount.{
  Amount, checked_add, checked_sub, checked_mul, checked_div, checked_rem,
}
use rust_riecoin.Units.Amount.Laws.{checked_arithmetic}
use rust_riecoin.Primitives.Sequence.{
  from_512_second_intervals, from_seconds_floor, from_seconds_ceil,
}
use rust_riecoin.Primitives.Sequence.Laws.{from_seconds_ceil-wraps, from_seconds_bounds}

abbrev five : Amount
five = record { sat = 5 }

abbrev seven : Amount
seven = record { sat = 7 }

checked_arithmetic_example :
    (checked_add five seven ≡ some (record { sat = 12 }))
    × (checked_sub five seven ≡ none)
    × (checked_mul five 3 ≡ some (record { sat = 15 }))
    × (checked_div five 3 ≡ some (record { sat = 1 }))
    × (checked_rem five 3 ≡ some (record { sat = 2 }))
checked_arithmetic_example = checked_arithmetic five seven 3 (omega arith) (omega arith)

sum_of_both : checked_add five seven ≡ some (record { sat = 12 })
unfolding checked_add
sum_of_both = refl

from_seconds_ceil-wraps_example :
    from_seconds_ceil 4_294_967_295 ≡ some (from_512_second_intervals 0)
from_seconds_ceil-wraps_example = from_seconds_ceil-wraps 4_294_967_295 (omega arith) (omega arith)

from_seconds_bounds_example :
    ((from_seconds_floor 1_000 ≡ some (from_512_second_intervals 1))
      ↔ ((1 * 512 ≤ 1_000) × (1_000 < 1 * 512 + 512)))
    × ((from_seconds_ceil 1_000 ≡ some (from_512_second_intervals 1))
        ↔ ((1_000 ≤ 1 * 512) × (1 * 512 < 1_000 + 512)))
from_seconds_bounds_example = from_seconds_bounds 1_000 1 (omega arith) (omega arith)

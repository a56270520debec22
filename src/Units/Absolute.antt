-- ===== src/Units/Absolute.antt =====
-- units/src/locktime/absolute.rs: block heights and block times, told apart by a threshold.
use rust_riecoin.Base.{ℕ, Bool, ltb, leb, if◌then◌else◌}

abbrev pub lock_time_threshold : ℕ
lock_time_threshold = 500_000_000

pub data LockTimeUnit : Type 0 where
  blocks seconds : LockTimeUnit

pub record ConversionError : Type 0 where
  pub unit : LockTimeUnit
  pub input : ℕ

-- A `Height` and a `Time` are the `u32` that they wrap.
pub data ConversionResult : Type 0 where
  ok : ℕ → ConversionResult
  err : ConversionError → ConversionResult

abbrev pub is_block_height : ℕ → Bool
is_block_height n = ltb n lock_time_threshold

abbrev pub is_block_time : ℕ → Bool
is_block_time n = leb lock_time_threshold n

unfoldable pub height_from_consensus : ℕ → ConversionResult
height_from_consensus n =
    if is_block_height n then ok n else err (record { unit = LockTimeUnit.blocks; input = n })

unfoldable pub time_from_consensus : ℕ → ConversionResult
time_from_consensus n =
    if is_block_time n then ok n else err (record { unit = LockTimeUnit.seconds; input = n })

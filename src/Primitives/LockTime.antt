-- ===== src/Primitives/LockTime.antt =====
-- primitives/src/locktime/absolute.rs: a lock time is a block height or a block time.
pub mod Laws
use rust_riecoin.Base.{ℕ, Bool, true, false, not, Option, none, some, leb, if◌then◌else◌}
use rust_riecoin.Units.Absolute
use rust_riecoin.Units.Absolute.{ConversionResult, height_from_consensus, time_from_consensus}

pub data LockTime : Type 0 where
  blocks seconds : ℕ → LockTime

-- `.expect("n is valid")`: `none` is the panic.
abbrev expect : (ℕ → LockTime) → ConversionResult → Option LockTime
expect f (ConversionResult.ok n) = some (f n)
expect f (ConversionResult.err e) = none

unfoldable pub from_consensus : ℕ → Option LockTime
unfolding height_from_consensus time_from_consensus
from_consensus n =
    if Absolute.is_block_height n
    then expect blocks (height_from_consensus n)
    else expect seconds (time_from_consensus n)

unfoldable pub to_consensus_u32 : LockTime → ℕ
to_consensus_u32 (blocks h) = h
to_consensus_u32 (seconds t) = t

pub is_same_unit : LockTime → LockTime → Bool
is_same_unit (blocks _) (blocks _) = true
is_same_unit (seconds _) (seconds _) = true
is_same_unit _ _ = false

pub is_block_height : LockTime → Bool
is_block_height (blocks _) = true
is_block_height (seconds _) = false

pub is_block_time : LockTime → Bool
unfolding is_block_height
is_block_time l = not (is_block_height l)

pub is_satisfied_by : LockTime → ℕ → ℕ → Bool
is_satisfied_by (blocks n) height time = leb n height
is_satisfied_by (seconds n) height time = leb n time

pub is_implied_by : LockTime → LockTime → Bool
is_implied_by (blocks this) (blocks other) = leb this other
is_implied_by (seconds this) (seconds other) = leb this other
is_implied_by _ _ = false

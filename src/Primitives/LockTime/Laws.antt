-- ===== src/Primitives/LockTime/Laws.antt =====
-- Lock times and their consensus encoding; satisfaction and implication.
use rust_riecoin.Base.{ℕ, ◌^◌, ◌≤◌, ◌<◌, ◌≡◌, refl, ◌↔◌, true, some, ltb, if◌then◌else◌, arith}
use rust_riecoin.Units.Absolute.{lock_time_threshold}
use rust_riecoin.Primitives.LockTime.{
  LockTime, blocks, seconds, from_consensus, to_consensus_u32, is_satisfied_by, is_implied_by,
  is_same_unit,
}

-- What the types `Height` and `Time` hold.
abbrev pub IsLockTime : LockTime → Type 0
IsLockTime (blocks h) = h < lock_time_threshold
IsLockTime (seconds t) = (lock_time_threshold ≤ t) × (t < 2 ^ 32)

-- from_consensus does not panic on a u32: it gives a lock time in the range of its unit, whose
-- consensus encoding is that number.
pub from_consensus-total :
    (n : ℕ)
    → n < 2 ^ 32
    → (l : LockTime) × (from_consensus n ≡ some l) × IsLockTime l × (to_consensus_u32 l ≡ n)
unfolding from_consensus to_consensus_u32
from_consensus-total n h = (
  if ltb n lock_time_threshold then blocks n else seconds n,
  ground arith,
  ground arith,
  ground arith,
)

pub from_consensus-to_consensus_u32 :
    (l : LockTime)
    → IsLockTime l
    → (from_consensus (to_consensus_u32 l) ≡ some l) × (to_consensus_u32 l < 2 ^ 32)
unfolding from_consensus to_consensus_u32
from_consensus-to_consensus_u32 (blocks h) v = ground arith
from_consensus-to_consensus_u32 (seconds t) v = ground arith

-- A lock time is implied by another exactly if they have the same unit and it is satisfied at
-- every height and time at which the other is.
pub is_implied_by_iff :
    (this other : LockTime)
    → (is_implied_by this other ≡ true) ↔ (
        (is_same_unit this other ≡ true)
        × ((height time : ℕ)
            → is_satisfied_by other height time ≡ true
            → is_satisfied_by this height time ≡ true))
unfolding is_implied_by is_same_unit is_satisfied_by
is_implied_by_iff (blocks a) (blocks b) =
    (λ h. (refl, λ height time k. ground arith), λ h. h.1 b b (ground arith))
is_implied_by_iff (seconds a) (seconds b) =
    (λ h. (refl, λ height time k. ground arith), λ h. h.1 b b (ground arith))
is_implied_by_iff (blocks a) (seconds b) = (λ h. cc, λ h. h.0)
is_implied_by_iff (seconds a) (blocks b) = (λ h. cc, λ h. h.0)

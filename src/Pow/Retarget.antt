-- ===== src/Pow/Retarget.antt =====
-- Difficulty adjustment of bitcoin/src/pow.rs, and the proof of work of a header in
-- bitcoin/src/blockdata/block.rs. `none` is a panic.
pub mod Laws
pub mod Headers
use rust_riecoin.Base.{
  ℕ, ◌-◌, ◌*◌, ◌/◌, ◌%◌, ◌^◌, Bool, not, ◌&&◌, Option, none, some, List, ltb, ◌==◌, if◌then◌else◌,
}
use rust_riecoin.Base.Int.{ℤ, pos, negsuc}
use rust_riecoin.Primitives.Block.{Header, block_hash}
use rust_riecoin.Primitives.Buffer.{◌>>=◌}
use rust_riecoin.Pow.U256.{U256, lt, wrapping_shl, wrapping_shr}
use rust_riecoin.Pow.Division.{div_rem}
use rust_riecoin.Pow.Product.{mul}
use rust_riecoin.Pow.Target.{Target, is_met_by}
use rust_riecoin.Pow.Compact.{from_compact, to_compact_lossy}

-- The fields of `Params` that are read here.
pub record Params : Type 0 where
  pub pow_target_timespan : ℕ
  pub max_attainable_target : Target
  pub no_pow_retargeting : Bool

-- `i64::clamp` between two numbers that are not negative; it asserts their order.
unfoldable pub clamp : ℤ → ℕ → ℕ → Option ℕ
clamp (negsuc n) low high = if ltb high low then none else some low
clamp (pos n) low high =
    if ltb high low then none else some (if ltb n low then low else if ltb high n then high else n)

unfoldable pub min_transition_threshold : Target → Target
min_transition_threshold t = record { inner = wrapping_shr t.inner 2 }

unfoldable pub max_transition_threshold_unchecked : Target → Target
max_transition_threshold_unchecked t = record { inner = wrapping_shl t.inner 2 }

unfoldable pub max_transition_threshold : Params → Target → Target
max_transition_threshold params t =
    let unchecked = max_transition_threshold_unchecked t in
    let max_attainable = params.max_attainable_target in
    if lt max_attainable.inner unchecked.inner then max_attainable else unchecked

-- The function behind its early return.
unfoldable pub next_target : Bool → Params → ℕ → ℤ → Option ℕ
next_target debug params last timespan = do
  actual_timespan ←
      clamp timespan (params.pow_target_timespan / 2 ^ 2)
        (params.pow_target_timespan * 2 ^ 2 % 2 ^ 32)
  let prev_target = from_compact last
  let maximum_retarget = max_transition_threshold params prev_target
  product ← mul debug prev_target.inner (record { high = 0; low = actual_timespan })
  (retarget, _) ← div_rem product (record { high = 0; low = params.pow_target_timespan })
  some (
      if not (lt retarget maximum_retarget.inner)
      then to_compact_lossy maximum_retarget
      else to_compact_lossy (record { inner = retarget }))

unfoldable pub from_next_work_required : Bool → Params → ℕ → ℤ → Option ℕ
from_next_work_required debug params last timespan =
    if params.no_pow_retargeting then some last else next_target debug params last timespan

-- `i64::from(current) - i64::from(last_epoch_boundary)`
unfoldable pub time_between : ℕ → ℕ → ℤ
time_between last current =
    if ltb current last then negsuc (last - current - 1) else pos (current - last)

unfoldable pub from_header_difficulty_adjustment : Bool → Params → Header → Header → Option ℕ
from_header_difficulty_adjustment debug params last_epoch_boundary current =
    from_next_work_required debug params current.bits
      (time_between last_epoch_boundary.time current.time)

pub data ValidationError : Type 0 where
  bad_proof_of_work : ValidationError
  bad_target : ValidationError

pub data Validation : Type 0 where
  ok : List ℕ → Validation
  err : ValidationError → Validation

unfoldable pub eq_target : Target → Target → Bool
eq_target t u = t.inner.high == u.inner.high && t.inner.low == u.inner.low

module _ (sha256d : List ℕ → List ℕ) where
  unfoldable pub validate_pow : Header → Target → Validation
  validate_pow header required_target =
      let target = from_compact header.bits in
      let hash = block_hash sha256d header in
      if not (eq_target target required_target)
      then err bad_target
      else if is_met_by target hash
      then ok hash
      else err bad_proof_of_work

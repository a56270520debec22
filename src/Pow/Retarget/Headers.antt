-- ===== src/Pow/Retarget/Headers.antt =====
-- The difficulty adjustment between two headers, of bitcoin/src/pow.rs.
use rust_riecoin.Base.{
  ℕ, ◌-◌, ◌*◌, ◌/◌, ◌^◌, ◌<◌, ◌≡◌, refl, arith, Bool, Bool-cases, true, false, inl, inr, Option,
  some, min, max, ltb, if◌then◌else◌,
}
use rust_riecoin.Base.Int.{pos_part}
use rust_riecoin.Primitives.Block.{Header}
use rust_riecoin.Pow.U256.Laws.{value, IsU256}
use rust_riecoin.Pow.Target.{Target}
use rust_riecoin.Pow.Compact.{from_compact, to_compact_lossy}
use rust_riecoin.Pow.Retarget.{
  Params, from_next_work_required, time_between, from_header_difficulty_adjustment,
}
use rust_riecoin.Pow.Retarget.Laws.{next_target_lem}

pos_part-time_between : (last current : ℕ) → pos_part (time_between last current) ≡ current - last
unfolding time_between
pos_part-time_between last current = elim (Bool-cases (ltb current last)) [
  | inl earlier ↦ rw earlier (ground arith)
  | inr later ↦ rw later refl
]

some-if :
    (b : Bool) (x : ℕ) {m : Option ℕ} {y : ℕ}
    → m ≡ some y
    → (if b then some x else m) ≡ some (if b then x else y)
some-if true x e = refl
some-if false x e = e

-- For a maximum target below 2^256, a positive timespan of the network of which four times fit in
-- 32 bits, compact bits below 2^32 of the current header, and a target of them whose product with
-- four times that timespan is below 2^256: from_header_difficulty_adjustment does not panic, in
-- debug and in release mode, and gives the bits of the current header where the network does not
-- retarget, and otherwise the compact form of the least of these three: the target times the time
-- between the two headers, none if it is negative, which is taken between a quarter of and four
-- times the timespan of the network, divided by the timespan of the network; four times the
-- target; and the maximum target.
pub from_header_difficulty_adjustment_lem :
    (debug : Bool) (params : Params) (last_epoch_boundary current : Header)
    → IsU256 params.max_attainable_target.inner
    → 0 < params.pow_target_timespan
    → params.pow_target_timespan * 4 < 2 ^ 32
    → current.bits < 2 ^ 32
    → value (from_compact current.bits).inner * (params.pow_target_timespan * 4) < 2 ^ 256
    → let previous = value (from_compact current.bits).inner in
      let timespan = params.pow_target_timespan in
      let span =
        min (max (current.time - last_epoch_boundary.time) (timespan / 4)) (timespan * 4) in
      (required : Target) × (from_header_difficulty_adjustment debug params last_epoch_boundary
          current
        ≡ some (if params.no_pow_retargeting then current.bits else to_compact_lossy required))
      × (value required.inner
          ≡ min
              (previous * span / timespan)
              (min (previous * 4) (value params.max_attainable_target.inner)))
      × IsU256 required.inner
unfolding from_header_difficulty_adjustment from_next_work_required
from_header_difficulty_adjustment_lem debug params boundary current m p s l b =
    let elapsed = time_between boundary.time current.time in
    let whole = pos_part-time_between boundary.time current.time in
    let (required, e, total, fits) = next_target_lem debug params current.bits elapsed m p s l b in
    (required, some-if params.no_pow_retargeting current.bits e, rw whole at total, fits)

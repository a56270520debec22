-- ===== src/Pow/Retarget/Laws.antt =====
-- What the difficulty adjustment and the proof of work of bitcoin/src/pow.rs compute.
use rust_riecoin.Base.{
  ℕ, ◌*◌, ◌/◌, ◌%◌, ◌^◌, ◌<◌, ◌≤◌, ◌≡◌, refl, sym, ap, ap₂, ◌∙◌, arith, Bool-cases, inl, inr, Bool,
  true, false, some, List, length, min, max, ◌↔◌, ◌≢◌, subst,
}
use rust_riecoin.Base.Int.{ℤ, pos, negsuc, pos_part}
use rust_riecoin.Base.Bytes as Bytes
use rust_riecoin.Base.Bytes.{AreBytes}
use rust_riecoin.Primitives.Block.{Header, block_hash}
use rust_riecoin.Pow.U256.{U256, lt, wrapping_shl}
use native.Mathlib.Nat.{mul-le-mul_left}
use rust_riecoin.Pow.U256.Laws.{value, IsU256, lt-value}
use rust_riecoin.Pow.U256.Shift.{shift-value, wrapping_shl-IsU256}
use rust_riecoin.Pow.Division.Laws.{div_rem_lem}
use rust_riecoin.Pow.Product.{mul, checked_result, overflowing_mul}
use rust_riecoin.Pow.Product.Laws.{overflowing_mul-exact}
use rust_riecoin.Pow.Target.{Target, is_met_by}
use rust_riecoin.Pow.Target.Laws.{is_met_by_iff}
use rust_riecoin.Pow.Compact.{from_compact, to_compact_lossy}
use rust_riecoin.Pow.Compact.Laws.{from_compact-value, value-small}
use rust_riecoin.Pow.Retarget.{
  Params, clamp, max_transition_threshold_unchecked, max_transition_threshold, ValidationError, ok,
  err, bad_target, bad_proof_of_work, eq_target, validate_pow, next_target,
}

-- The time span between its bounds; a negative one counts as none.
abbrev pub clamped : ℤ → ℕ → ℕ
clamped timespan target = min (max (pos_part timespan) (target / 4)) (target * 4)

clamp_lem :
    (t : ℤ) (target : ℕ)
    → target * 4 < 2 ^ 32
    → clamp t (target / 2 ^ 2) (target * 2 ^ 2 % 2 ^ 32) ≡ some (clamped t target)
unfolding clamp
clamp_lem (pos n) target h = ground arith
clamp_lem (negsuc n) target h = ground arith

checked_result-quiet :
    (debug : Bool) (p : U256 × Bool) → p.1 ≡ false → checked_result debug p ≡ some p.0
unfolding checked_result
checked_result-quiet true p e = rw e refl
checked_result-quiet false p e = refl

mul-value :
    (debug : Bool) (x : U256) (n : ℕ)
    → IsU256 x
    → n < 2 ^ 64
    → value x * n < 2 ^ 256
    → (p : U256) × (mul debug x (record { high = 0; low = n }) ≡ some p)
      × (value p ≡ value x * n)
      × IsU256 p
unfolding mul
mul-value debug x n v h bound =
    let small = value-small n in
    let rhs : U256 = record { high = 0; low = n } in
    let (product, quiet, fits) =
      overflowing_mul-exact x rhs v (omega arith, omega arith) (omega (arith, small)) in
    let same : value x * value rhs ≡ value x * n = ap (λ t. value x * t) small in
    (
      (overflowing_mul x rhs).0,
      checked_result-quiet debug (overflowing_mul x rhs) quiet,
      omega (arith, product, same),
      fits,
    )

max_transition_threshold-value :
    (params : Params) (t : Target)
    → IsU256 params.max_attainable_target.inner
    → IsU256 t.inner
    → value t.inner * 4 < 2 ^ 256
    → (value (max_transition_threshold params t).inner
        ≡ min (value t.inner * 4) (value params.max_attainable_target.inner))
      × IsU256 (max_transition_threshold params t).inner
unfolding max_transition_threshold max_transition_threshold_unchecked
max_transition_threshold-value params t m v h =
    let shift = (shift-value t.inner 2 v).0 in
    let fits = wrapping_shl-IsU256 t.inner 2 in
    let order = lt-value params.max_attainable_target.inner (wrapping_shl t.inner 2) m fits in
    elim (Bool-cases (lt params.max_attainable_target.inner (wrapping_shl t.inner 2))) [
      | inl less ↦ rw less (ground (arith, order, shift), m)
      | inr more ↦ rw more (ground (arith, order, shift), fits)
    ]

-- The part behind the early return does not panic; the target that is required is the last one times
-- the clamped timespan over that of the network, but at most four times the last one and at most the
-- maximum.
pub next_target_lem :
    (debug : Bool) (params : Params) (last : ℕ) (timespan : ℤ)
    → IsU256 params.max_attainable_target.inner
    → 0 < params.pow_target_timespan
    → params.pow_target_timespan * 4 < 2 ^ 32
    → last < 2 ^ 32
    → value (from_compact last).inner * (params.pow_target_timespan * 4) < 2 ^ 256
    → let previous = value (from_compact last).inner in
      let span = clamped timespan params.pow_target_timespan in
      (required : Target) × (next_target debug params last timespan
        ≡ some (to_compact_lossy required))
      × (value required.inner
          ≡ min
              (previous * span / params.pow_target_timespan)
              (min (previous * 4) (value params.max_attainable_target.inner)))
      × IsU256 required.inner
unfolding next_target
next_target_lem debug params last timespan m p s l b =
    let ts = params.pow_target_timespan in
    let prev = from_compact last in
    let span = clamped timespan ts in
    let (_, prev_fits) = from_compact-value last l in
    let most : span ≤ ts * 4 = ground arith in
    let bound : value prev.inner * span ≤ value prev.inner * (ts * 4) =
      mul-le-mul_left (value prev.inner) most in
    let (product, e, total, product_fits) =
      mul-value debug prev.inner span prev_fits (omega arith) (omega arith) in
    let divisor = value-small ts in
    let (q, r, e', parts) =
      div_rem_lem product (record { high = 0; low = ts }) product_fits (omega arith, omega arith)
        (omega (arith, divisor)) in
    let four : value prev.inner * 4 ≤ value prev.inner * (ts * 4) =
      mul-le-mul_left (value prev.inner) (omega arith) in
    let (limit, limit_fits) =
      max_transition_threshold-value params prev m prev_fits (omega arith) in
    let highest = max_transition_threshold params prev in
    let order = lt-value q highest.inner parts.quotient_fits limit_fits in
    let quotient : value q ≡ value prev.inner * span / ts =
      parts.quotient ∙ ap₂ (λ a b. a / b) total divisor in
    elim (Bool-cases (lt q highest.inner)) [
      | inl less ↦ (
        record { inner = q },
        rw (clamp_lem timespan ts s, e, e', less) refl,
        ground (arith, order, less, limit, quotient),
        parts.quotient_fits,
      )
      | inr more ↦ (
        highest,
        rw (clamp_lem timespan ts s, e, e', more) refl,
        ground (arith, order, more, limit, quotient),
        limit_fits,
      )
    ]

eq_target_iff : (t u : Target) → (eq_target t u ≡ true) ↔ (t ≡ u)
unfolding eq_target
eq_target_iff t u = (λ h. ground arith, λ e. ground arith)

err-ne-ok : {e : ValidationError} {bs : List ℕ} → err e ≢ ok bs
err-ne-ok h = cc

reasons_differ : err bad_proof_of_work ≢ err bad_target
reasons_differ h = cc

-- For a double hash that gives 32 bytes, and compact bits below 2^32: validate_pow accepts a
-- header with a hash exactly if the target of its bits is the required one, the number whose
-- little-endian digits are the bytes of the hash of the header is at most that target, and that
-- hash is the one given back; it refuses the target exactly if the target of the bits is another
-- one.
pub validate_pow_lem :
    (sha256d : List ℕ → List ℕ) (header : Header) (required : Target) (bs : List ℕ)
    → ((bytes : List ℕ) → AreBytes (sha256d bytes) × (length (sha256d bytes) ≡ 32))
    → header.bits < 2 ^ 32
    → let hash = block_hash sha256d header in
      ((validate_pow sha256d header required ≡ ok bs) ↔ (
        (from_compact header.bits ≡ required)
        × (Bytes.from_le_bytes hash ≤ value required.inner)
        × (hash ≡ bs)))
      × ((validate_pow sha256d header required ≡ err bad_target)
          ↔ (from_compact header.bits ≢ required))
unfolding validate_pow block_hash
validate_pow_lem sha256d header required bs digest b =
    let hash = block_hash sha256d header in
    let target = from_compact header.bits in
    let (_, fits) = from_compact-value header.bits b in
    let met = is_met_by_iff target hash fits (digest _).0 (digest _).1 in
    let same = eq_target_iff target required in
    elim (Bool-cases (eq_target target required)) [
      | inl equal ↦ elim (Bool-cases (is_met_by target hash)) [
        | inl good ↦
            let e = same.0 equal in
            let below : Bytes.from_le_bytes hash ≤ value required.inner =
              subst (λ t. Bytes.from_le_bytes hash ≤ value t.inner) e (met.0 good) in
            rw (equal, good)
              (
                (λ h. (e, below, cc), λ p. ap ok p.2),
                (λ h. absurd (err-ne-ok (sym h)), λ other. absurd (other e)),
              )
        | inr bad ↦
            let e = same.0 equal in
            let above : Bytes.from_le_bytes hash ≤ value required.inner → ⊥ = λ below.
              let t = met.1 (subst (λ t. Bytes.from_le_bytes hash ≤ value t.inner) (sym e) below) in
              cc in
            rw (equal, bad)
              (
                (λ h. absurd (err-ne-ok h), λ p. absurd (above p.1)),
                (λ h. absurd (reasons_differ h), λ other. absurd (other e)),
              )
      ]
      | inr differ ↦
          let other : target ≢ required = λ e. let t = same.1 e in cc in
          rw differ ((λ h. absurd (err-ne-ok h), λ p. absurd (other p.0)), (λ h. other, λ n. refl))
    ]

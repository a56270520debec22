-- ===== src/Pow/Work/Laws.antt =====
-- The work of a target and its difficulty, of bitcoin/src/pow.rs, as quotients.
use rust_riecoin.Base.{
  ℕ, ◌+◌, ◌-◌, ◌*◌, ◌/◌, ◌^◌, ◌<◌, ◌≡◌, refl, sym, ap, ap₂, ◌∙◌, arith, Bool-cases, inl, inr, true,
  false, ◌↔◌, none, some, min, if◌then◌else◌, ◌==◌, leb, ◌≢◌,
}
use native.Mathlib.Nat.{mod-lt, div-add-mod', div-eq_of_lt-le, div-le_self}
use rust_riecoin.Pow.U256.{U256, one, lt, complement, wrapping_inc}
use rust_riecoin.Pow.U256.Laws.{
  value, IsU256, value-lt, complement-value, wrapping_inc-value, wrapping_inc-IsU256, value-one,
  one-IsU256,
}
use rust_riecoin.Pow.Division.{div_rem, max_u256}
use rust_riecoin.Pow.Division.Laws.{div_rem_lem}
use rust_riecoin.Pow.Target.{Target}
use rust_riecoin.Pow.Work.{
  is_zero, is_one, is_max, increased_quotient, inverse, saturating_to_u128, difficulty,
}

-- The tests that `inverse` makes first.
special_values :
    (x : U256)
    → IsU256 x
    → ((is_zero x ≡ true) ↔ (value x ≡ 0))
      × ((is_one x ≡ true) ↔ (value x ≡ 1))
      × ((is_max x ≡ true) ↔ (value x ≡ 2 ^ 256 - 1))
unfolding is_zero is_one is_max value
special_values x v = (
  (λ h. ground arith, λ h. ground arith),
  (λ h. ground arith, λ h. ground arith),
  (λ h. ground arith, λ h. ground arith),
)

-- What the source's comment says: the complement divided by the next number, plus one.
complement_quotient :
    (v q : ℕ) → v < 2 ^ 256 - 1 → q ≡ (2 ^ 256 - 1 - v) / (v + 1) → q + 1 ≡ 2 ^ 256 / (v + 1)
complement_quotient v q h e =
    let split = div-add-mod' (2 ^ 256 - 1 - v) (v + 1) in
    let rest = mod-lt (2 ^ 256 - 1 - v) {m = v + 1} (omega arith) in
    let product : q * (v + 1) ≡ (2 ^ 256 - 1 - v) / (v + 1) * (v + 1) = ap (λ t. t * (v + 1)) e in
    sym (div-eq_of_lt-le (v + 1) (omega arith) (omega arith))

value-max : value max_u256 ≡ 2 ^ 256 - 1
unfolding value
value-max = refl

-- What `inverse` is for a number.
abbrev pub inverse_of : ℕ → ℕ
inverse_of v = if leb v 1 then 2 ^ 256 - 1 else 2 ^ 256 / (v + 1)

inverse-divided :
    (x : U256)
    → IsU256 x
    → 1 < value x
    → value x < 2 ^ 256 - 1
    → (r : U256) × (increased_quotient (div_rem (complement x) (wrapping_inc x)) ≡ some r)
      × (value r ≡ 2 ^ 256 / (value x + 1))
      × IsU256 r
unfolding increased_quotient
inverse-divided x v l h =
    let (c, c_fits) = complement-value x v in
    let next = wrapping_inc-value x v in
    let n_fits = wrapping_inc-IsU256 x v in
    let positive : 0 < value (wrapping_inc x) = omega (arith, next) in
    let (q, r, e, parts) = div_rem_lem (complement x) (wrapping_inc x) c_fits n_fits positive in
    let plain : value (wrapping_inc x) ≡ value x + 1 = omega (arith, next) in
    let quotient : value q ≡ (2 ^ 256 - 1 - value x) / (value x + 1) =
      parts.quotient ∙ ap₂ (λ a b. a / b) c plain in
    let total = complement_quotient (value x) (value q) h quotient in
    let below = div-le_self (2 ^ 256 - 1 - value x) (value x + 1) in
    let step = wrapping_inc-value q parts.quotient_fits in
    (
      wrapping_inc q,
      rw e refl,
      omega (arith, step, total, quotient, below),
      wrapping_inc-IsU256 q parts.quotient_fits,
    )

-- For a number below 2^256, inverse does not panic and gives 2^256 divided by one more than the
-- number, or 2^256 - 1 for 0 and 1.
pub inverse_lem :
    (x : U256)
    → IsU256 x
    → (r : U256) × (inverse x ≡ some r) × (value r ≡ inverse_of (value x)) × IsU256 r
unfolding inverse
inverse_lem x v =
    let (zero_iff, one_iff, max_iff) = special_values x v in
    let bound = value-lt x v in
    elim (Bool-cases (is_zero x)) [
      | inl z ↦ (max_u256, rw z refl, rw (value-max, zero_iff.0 z) refl, (omega arith, omega arith))
      | inr nz ↦ elim (Bool-cases (is_one x)) [
        | inl o ↦ (
          max_u256,
          rw (nz, o) refl,
          rw (value-max, one_iff.0 o) refl,
          (omega arith, omega arith),
        )
        | inr many ↦ elim (Bool-cases (is_max x)) [
          | inl m ↦ (one, rw (nz, many, m) refl, rw (value-one, max_iff.0 m) refl, one-IsU256)
          | inr nm ↦
              let not_zero : value x ≢ 0 = λ e. let t = zero_iff.1 e in cc in
              let not_one : value x ≢ 1 = λ e. let t = one_iff.1 e in cc in
              let not_max : value x ≢ 2 ^ 256 - 1 = λ e. let t = max_iff.1 e in cc in
              let large : leb (value x) 1 ≡ false = ground arith in
              let (r, e, total, fits) = inverse-divided x v (ground arith) (ground arith) in
              (r, rw (nz, many, nm) e, rw large total, fits)
        ]
      ]
    ]

saturating_to_u128-value :
    (x : U256) → IsU256 x → saturating_to_u128 x ≡ min (value x) (2 ^ 128 - 1)
unfolding saturating_to_u128 value lt
saturating_to_u128-value x v = ground arith

-- For targets below 2^256, difficulty panics for the target 0, and gives otherwise the maximum
-- target divided by the target, or 2^128 - 1 where that is greater.
pub difficulty_lem :
    (max_attainable_target t : Target)
    → IsU256 max_attainable_target.inner
    → IsU256 t.inner
    → difficulty max_attainable_target t ≡ (
        if value t.inner == 0
        then none
        else some (min (value max_attainable_target.inner / value t.inner) (2 ^ 128 - 1)))
unfolding difficulty
difficulty_lem m t v w =
    let (zero_iff, _, _) = special_values t.inner w in
    elim (Bool-cases (value t.inner == 0)) [
      | inl z ↦ rw (z, zero_iff.1 (ground arith)) refl
      | inr nz ↦
          let (q, r, e, parts) = div_rem_lem m.inner t.inner v w (ground arith) in
          let not_zero : is_zero t.inner ≡ false = elim (Bool-cases (is_zero t.inner)) [
            | inl z ↦ absurd (let e = zero_iff.0 z in ground arith)
            | inr n ↦ n
          ] in
          rw (nz, not_zero, e, saturating_to_u128-value q parts.quotient_fits, parts.quotient) refl
    ]

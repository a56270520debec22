-- ===== src/Pow/Work.antt =====
-- Work and difficulty of bitcoin/src/pow.rs. `none` is a panic.
pub mod Laws
use rust_riecoin.Base.{ℕ, ◌-◌, ◌^◌, Bool, ◌&&◌, Option, none, some, ltb, ◌==◌, if◌then◌else◌}
use rust_riecoin.Pow.U256.{U256, one, lt, complement, wrapping_inc}
use rust_riecoin.Pow.Division.{div_rem, zero_u256, max_u256}
use rust_riecoin.Pow.Product.{add, sub}
use rust_riecoin.Pow.Target.{Target}

pub record Work : Type 0 where
  pub inner : U256

unfoldable pub is_zero : U256 → Bool
is_zero x = x.high == 0 && x.low == 0

unfoldable pub is_one : U256 → Bool
is_one x = x.high == 0 && x.low == 1

unfoldable pub is_max : U256 → Bool
is_max x = x.high == 2 ^ 128 - 1 && x.low == 2 ^ 128 - 1

-- The last two lines of `inverse`.
unfoldable pub increased_quotient : Option (U256 × U256) → Option U256
increased_quotient none = none
increased_quotient (some (ret, _)) = some (wrapping_inc ret)

unfoldable pub inverse : U256 → Option U256
inverse x =
    if is_zero x
    then some max_u256
    else if is_one x
    then some max_u256
    else if is_max x
    then some one
    else increased_quotient (div_rem (complement x) (wrapping_inc x))

unfoldable pub to_work : Target → Option Work
to_work t = elim (inverse t.inner) [ none ↦ none | some w ↦ some (record { inner = w }) ]

unfoldable pub to_target : Work → Option Target
to_target w = elim (inverse w.inner) [ none ↦ none | some t ↦ some (record { inner = t }) ]

module _ (debug : Bool) where
  unfoldable pub add_work : Work → Work → Option Work
  add_work x rhs = elim (add debug x.inner rhs.inner) [
    | none ↦ none
    | some w ↦ some (record { inner = w })
  ]

  unfoldable pub sub_work : Work → Work → Option Work
  sub_work x rhs = elim (sub debug x.inner rhs.inner) [
    | none ↦ none
    | some w ↦ some (record { inner = w })
  ]

unfoldable pub saturating_to_u128 : U256 → ℕ
saturating_to_u128 x = if lt (record { high = 0; low = 2 ^ 128 - 1 }) x then 2 ^ 128 - 1 else x.low

-- `max_attainable_target` is the one field of `Params` that the function reads.
unfoldable pub difficulty : Target → Target → Option ℕ
difficulty max_attainable_target t =
    if is_zero t.inner then none else elim (div_rem max_attainable_target.inner t.inner) [
      | none ↦ none
      | some (d, _) ↦ some (saturating_to_u128 d)
    ]

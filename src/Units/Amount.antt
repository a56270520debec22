-- ===== src/Units/Amount.antt =====
-- units/src/amount/unsigned.rs: an amount of satoshis between 0 and `Amount::MAX`. The field is private,
-- so that `from_sat` and `from_sat_u32` are the only ways to a value.
pub mod Laws
use rust_riecoin.Units.U64
use rust_riecoin.Base.{
  ℕ, ◌+◌, ◌-◌, ◌*◌, ◌/◌, ◌%◌, ◌^◌, ◌≤◌, Bool, true, false, Option, none, some, ltb, leb, ◌==◌,
  if◌then◌else◌,
}

pub record Amount : Type 0 where
  pub sat : ℕ

abbrev pub max_money : ℕ
max_money = 21_000_000 * 100_000_000

pub record OutOfRangeError : Type 0 where
  pub is_signed : Bool
  pub is_greater_than_max : Bool

pub data AmountResult : Type 0 where
  ok : Amount → AmountResult
  err : OutOfRangeError → AmountResult

abbrev pub from_sat_u32 : ℕ → Amount
from_sat_u32 satoshi = record { sat = satoshi }

abbrev pub to_sat : Amount → ℕ
to_sat a = a.sat

unfoldable pub from_sat : ℕ → AmountResult
from_sat satoshi =
    if ltb max_money satoshi
    then err (record { is_signed = false; is_greater_than_max = true })
    else ok (record { sat = satoshi })

-- `match Self::from_sat(…) { Ok(amount) => Some(amount), Err(_) => None }`
abbrev pub ok? : AmountResult → Option Amount
ok? (ok a) = some a
ok? (err e) = none

abbrev pub in_range : Option ℕ → Option Amount
in_range none = none
in_range (some res) = ok? (from_sat res)

-- The sum of two `u64`s in range cannot overflow; the code adds with a plain `+`, which would wrap.
unfoldable pub checked_add : Amount → Amount → Option Amount
unfolding from_sat
checked_add a rhs = ok? (from_sat ((to_sat a + to_sat rhs) % 2 ^ 64))

unfoldable pub checked_sub : Amount → Amount → Option Amount
unfolding from_sat
checked_sub a rhs = in_range (U64.checked_sub (to_sat a) (to_sat rhs))

unfoldable pub checked_mul : Amount → ℕ → Option Amount
unfolding from_sat
checked_mul a rhs = in_range (U64.checked_mul (to_sat a) rhs)

unfoldable pub checked_div : Amount → ℕ → Option Amount
unfolding from_sat
checked_div a rhs = in_range (U64.checked_div (to_sat a) rhs)

unfoldable pub checked_rem : Amount → ℕ → Option Amount
unfolding from_sat
checked_rem a rhs = in_range (U64.checked_rem (to_sat a) rhs)

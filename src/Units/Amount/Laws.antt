-- ===== src/Units/Amount/Laws.antt =====
-- The range of an amount, and the checked operations as arithmetic without overflow.
use rust_riecoin.Base.{
  ℕ, ◌+◌, ◌-◌, ◌*◌, ◌/◌, ◌%◌, ◌≤◌, ◌≡◌, none, some, leb, ◌==◌, if◌then◌else◌, arith,
}
use rust_riecoin.Units.Amount.{
  Amount, max_money, ok, from_sat, checked_add, checked_sub, checked_mul, checked_div, checked_rem,
}

abbrev pub IsAmount : Amount → Type 0
IsAmount a = a.sat ≤ max_money

abbrev sats : ℕ → Amount
sats n = record { sat = n }

quotient-le : (a n : ℕ) → a / n ≤ a
quotient-le a n = grind arith

remainder-le : (a n : ℕ) → a % n ≤ a
remainder-le a n = grind arith

-- Every value that `from_sat` or a checked operation returns is in range.
pub from_sat-IsAmount : (n : ℕ) {a : Amount} → from_sat n ≡ ok a → IsAmount a × (a.sat ≡ n)
unfolding from_sat
from_sat-IsAmount n h = ground arith

-- On amounts in range, the checked operations give the exact result where that is an amount, and
-- None otherwise: on a sum or product above the maximum, on a negative difference, on a division
-- by 0.
pub checked_arithmetic :
    (a b : Amount) (n : ℕ)
    → IsAmount a
    → IsAmount b
    → (checked_add a b
        ≡ (if leb (a.sat + b.sat) max_money then some (sats (a.sat + b.sat)) else none))
      × (checked_sub a b ≡ (if leb b.sat a.sat then some (sats (a.sat - b.sat)) else none))
      × (checked_mul a n ≡ (if leb (a.sat * n) max_money then some (sats (a.sat * n)) else none))
      × (checked_div a n ≡ (if n == 0 then none else some (sats (a.sat / n))))
      × (checked_rem a n ≡ (if n == 0 then none else some (sats (a.sat % n))))
checked_arithmetic a b n ha hb = (
  unfold checked_add in ground arith,
  unfold checked_sub in ground arith,
  unfold checked_mul in ground arith,
  unfold checked_div in ground (arith, quotient-le a.sat n),
  unfold checked_rem in ground (arith, remainder-le a.sat n),
)

-- On amounts in range, where the checked sum of two exists, subtracting the second from it gives
-- the first.
pub checked_sub-checked_add :
    (a b : Amount) {s : Amount}
    → IsAmount a
    → IsAmount b
    → checked_add a b ≡ some s
    → checked_sub s b ≡ some a
unfolding checked_add checked_sub
checked_sub-checked_add a b ha hb h = ground arith

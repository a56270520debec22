-- ===== src/Units/Weight.antt =====
-- units/src/weight.rs: transaction weight in weight units, four to a virtual byte. The plain operators
-- wrap modulo 2^64 where the source, in release mode, does.
use rust_riecoin.Base.{
  ℕ, ◌+◌, ◌-◌, ◌*◌, ◌/◌, ◌%◌, ◌^◌, ◌≤◌, ◌<◌, Option, none, some, ltb, if◌then◌else◌, arith,
}

pub record Weight : Type 0 where
  pub wu : ℕ

abbrev pub witness_scale_factor : ℕ
witness_scale_factor = 4

abbrev u64 : ℕ → ℕ
u64 n = n % 2 ^ 64

abbrev pub from_wu : ℕ → Weight
from_wu wu = record { wu = wu }

unfoldable pub from_vb : ℕ → Option Weight
from_vb vb =
    if ltb (vb * witness_scale_factor) (2 ^ 64)
    then some (from_wu (vb * witness_scale_factor))
    else none

abbrev pub from_witness_data_size : ℕ → Weight
from_witness_data_size witness_size = from_wu witness_size

unfoldable pub from_non_witness_data_size : ℕ → Weight
from_non_witness_data_size non_witness_size =
    from_wu (u64 (non_witness_size * witness_scale_factor))

abbrev pub to_wu : Weight → ℕ
to_wu w = w.wu

unfoldable pub to_vbytes_floor : Weight → ℕ
to_vbytes_floor w = w.wu / witness_scale_factor

-- `(self.0 + 4 - 1) / 4`, the sum modulo 2^64.
unfoldable pub to_vbytes_ceil : Weight → ℕ
to_vbytes_ceil w = u64 (w.wu + witness_scale_factor + 2 ^ 64 - 1) / witness_scale_factor

unfoldable pub to_kwu_floor : Weight → ℕ
to_kwu_floor w = w.wu / 1000

unfoldable pub to_kwu_ceil : Weight → ℕ
to_kwu_ceil w = u64 (w.wu + 999) / 1000

-- For a weight below 2^64 - 4, to_vbytes_ceil is the least number of virtual bytes whose weight is
-- at least the given one, and to_vbytes_floor the greatest whose weight is at most it.
pub vbytes_bounds :
    (w : Weight)
    → w.wu < 2 ^ 64 - 4
    → (w.wu ≤ to_vbytes_ceil w * 4)
      × (to_vbytes_ceil w * 4 < w.wu + 4)
      × (to_vbytes_floor w * 4 ≤ w.wu)
      × (w.wu < to_vbytes_floor w * 4 + 4)
unfolding to_vbytes_ceil to_vbytes_floor
vbytes_bounds w h = omega arith

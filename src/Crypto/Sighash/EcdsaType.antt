-- ===== src/Crypto/Sighash/EcdsaType.antt =====
-- `EcdsaSighashType` of bitcoin/src/crypto/sighash.rs.
pub mod Laws
use rust_riecoin.Base.{
  ℕ, ◌+◌, ◌*◌, ◌/◌, ◌%◌, Bool, true, false, Option, ◌&&◌, leb, ◌==◌, if◌then◌else◌,
}
use mathlib.Core.Option as Option

pub data EcdsaSighashType : Type 0 where
  all none single : EcdsaSighashType
  all_plus_anyone_can_pay none_plus_anyone_can_pay single_plus_anyone_can_pay : EcdsaSighashType

abbrev pub split_anyonecanpay_flag : EcdsaSighashType → EcdsaSighashType × Bool
split_anyonecanpay_flag all = (all, false)
split_anyonecanpay_flag none = (none, false)
split_anyonecanpay_flag single = (single, false)
split_anyonecanpay_flag all_plus_anyone_can_pay = (all, true)
split_anyonecanpay_flag none_plus_anyone_can_pay = (none, true)
split_anyonecanpay_flag single_plus_anyone_can_pay = (single, true)

-- `Single | SinglePlusAnyoneCanPay`
abbrev pub is_single : EcdsaSighashType → Bool
is_single all = false
is_single none = false
is_single single = true
is_single all_plus_anyone_can_pay = false
is_single none_plus_anyone_can_pay = false
is_single single_plus_anyone_can_pay = true

-- `n & 0x80`, as the bit itself.
abbrev pub high_bit : ℕ → ℕ
high_bit n = n / 0x80 % 2

-- `n & (0x1f | 0x80)`
abbrev pub masked : ℕ → ℕ
masked n = n % 0x20 + 0x80 * high_bit n

unfoldable pub from_consensus : ℕ → EcdsaSighashType
from_consensus n =
    let x = masked n in
    if x == 0x01
    then all
    else if x == 0x02
    then none
    else if x == 0x03
    then single
    else if x == 0x81
    then all_plus_anyone_can_pay
    else if x == 0x82
    then none_plus_anyone_can_pay
    else if x == 0x83
    then single_plus_anyone_can_pay
    else if high_bit x == 1
    then all_plus_anyone_can_pay
    else all

-- `none` of the result is `NonStandardSighashTypeError`.
unfoldable pub from_standard : ℕ → Option EcdsaSighashType
from_standard n =
    if n == 0x01
    then Option.some all
    else if n == 0x02
    then Option.some none
    else if n == 0x03
    then Option.some single
    else if n == 0x81
    then Option.some all_plus_anyone_can_pay
    else if n == 0x82
    then Option.some none_plus_anyone_can_pay
    else if n == 0x83
    then Option.some single_plus_anyone_can_pay
    else Option.none

abbrev pub to_u32 : EcdsaSighashType → ℕ
to_u32 all = 0x01
to_u32 none = 0x02
to_u32 single = 0x03
to_u32 all_plus_anyone_can_pay = 0x81
to_u32 none_plus_anyone_can_pay = 0x82
to_u32 single_plus_anyone_can_pay = 0x83

-- The derived `PartialEq`.
abbrev pub eq : EcdsaSighashType → EcdsaSighashType → Bool
eq a b = to_u32 a == to_u32 b

unfoldable pub is_invalid_use_of_sighash_single : ℕ → ℕ → ℕ → Bool
unfolding from_consensus
is_invalid_use_of_sighash_single sighash input_index outputs_len =
    is_single (from_consensus sighash) && leb outputs_len input_index

-- ===== src/Crypto/Sighash/TapType.antt =====
-- `TapSighashType` of bitcoin/src/crypto/sighash.rs.
use rust_riecoin.Base.{
  ℕ, ◌≡◌, refl, ◌↔◌, sym, Bool, true, false, Option, ◌==◌, if◌then◌else◌, arith,
}
use rust_riecoin.Crypto.Sighash.EcdsaType as Ecdsa
use rust_riecoin.Crypto.Sighash.EcdsaType.{EcdsaSighashType}

pub data TapSighashType : Type 0 where
  default all none single : TapSighashType
  all_plus_anyone_can_pay none_plus_anyone_can_pay single_plus_anyone_can_pay : TapSighashType

-- `From<EcdsaSighashType>`
abbrev pub from_ecdsa : EcdsaSighashType → TapSighashType
from_ecdsa Ecdsa.all = all
from_ecdsa Ecdsa.none = none
from_ecdsa Ecdsa.single = single
from_ecdsa Ecdsa.all_plus_anyone_can_pay = all_plus_anyone_can_pay
from_ecdsa Ecdsa.none_plus_anyone_can_pay = none_plus_anyone_can_pay
from_ecdsa Ecdsa.single_plus_anyone_can_pay = single_plus_anyone_can_pay

abbrev pub split_anyonecanpay_flag : TapSighashType → TapSighashType × Bool
split_anyonecanpay_flag default = (default, false)
split_anyonecanpay_flag all = (all, false)
split_anyonecanpay_flag none = (none, false)
split_anyonecanpay_flag single = (single, false)
split_anyonecanpay_flag all_plus_anyone_can_pay = (all, true)
split_anyonecanpay_flag none_plus_anyone_can_pay = (none, true)
split_anyonecanpay_flag single_plus_anyone_can_pay = (single, true)

-- `none` of the result is `InvalidSighashTypeError`.
unfoldable pub from_consensus_u8 : ℕ → Option TapSighashType
from_consensus_u8 sighash_type =
    if sighash_type == 0x00
    then Option.some default
    else if sighash_type == 0x01
    then Option.some all
    else if sighash_type == 0x02
    then Option.some none
    else if sighash_type == 0x03
    then Option.some single
    else if sighash_type == 0x81
    then Option.some all_plus_anyone_can_pay
    else if sighash_type == 0x82
    then Option.some none_plus_anyone_can_pay
    else if sighash_type == 0x83
    then Option.some single_plus_anyone_can_pay
    else Option.none

-- `sighash_type as u8`
abbrev pub to_u8 : TapSighashType → ℕ
to_u8 default = 0x00
to_u8 all = 0x01
to_u8 none = 0x02
to_u8 single = 0x03
to_u8 all_plus_anyone_can_pay = 0x81
to_u8 none_plus_anyone_can_pay = 0x82
to_u8 single_plus_anyone_can_pay = 0x83

-- The derived `PartialEq`.
abbrev pub eq : TapSighashType → TapSighashType → Bool
eq a b = to_u8 a == to_u8 b

from_consensus_u8-eq-some :
    (n : ℕ) (t : TapSighashType) → from_consensus_u8 n ≡ Option.some t → to_u8 t ≡ n
unfolding from_consensus_u8
from_consensus_u8-eq-some n t h = ground arith

from_consensus_u8-to_u8 : (t : TapSighashType) → from_consensus_u8 (to_u8 t) ≡ Option.some t
unfolding from_consensus_u8
from_consensus_u8-to_u8 default = refl
from_consensus_u8-to_u8 all = refl
from_consensus_u8-to_u8 none = refl
from_consensus_u8-to_u8 single = refl
from_consensus_u8-to_u8 all_plus_anyone_can_pay = refl
from_consensus_u8-to_u8 none_plus_anyone_can_pay = refl
from_consensus_u8-to_u8 single_plus_anyone_can_pay = refl

-- from_consensus_u8 accepts a number as a type exactly if it is the number of that type.
pub from_consensus_u8-IsInverse :
    (n : ℕ) (t : TapSighashType) → (from_consensus_u8 n ≡ Option.some t) ↔ (to_u8 t ≡ n)
from_consensus_u8-IsInverse n t =
    (from_consensus_u8-eq-some n t, λ e. rw (sym e) (from_consensus_u8-to_u8 t))

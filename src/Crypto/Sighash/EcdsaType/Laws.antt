-- ===== src/Crypto/Sighash/EcdsaType/Laws.antt =====
-- How `EcdsaSighashType` of bitcoin/src/crypto/sighash.rs reads the number behind a signature.
use rust_riecoin.Base.{
  ℕ, ◌/◌, ◌%◌, ◌≡◌, refl, sym, ◌↔◌, ◌&&◌, Option, leb, ◌==◌, if◌then◌else◌, arith,
}
use rust_riecoin.Crypto.Sighash.EcdsaType.{
  EcdsaSighashType, all, none, single, all_plus_anyone_can_pay, none_plus_anyone_can_pay,
  single_plus_anyone_can_pay, split_anyonecanpay_flag, from_consensus, from_standard, to_u32,
  is_invalid_use_of_sighash_single,
}

-- What the reference client looks at: the low five bits, and bit 7.
abbrev pub base : ℕ → EcdsaSighashType
base low = if low == 2 then none else if low == 3 then single else all

-- The type that from_consensus reads off any number splits into the base type, which is NONE or
-- SINGLE exactly for the low five bits 2 and 3 and ALL otherwise, and the flag ANYONECANPAY, which
-- is bit 7.
pub split_anyonecanpay_flag-from_consensus :
    (n : ℕ) → split_anyonecanpay_flag (from_consensus n) ≡ (base (n % 0x20), n / 0x80 % 2 == 1)
unfolding from_consensus
split_anyonecanpay_flag-from_consensus n = ground arith

-- The SINGLE bug is for the low five bits 3 and an index that has no output.
pub is_invalid_use_of_sighash_single-base :
    (n input_index outputs_len : ℕ)
    → is_invalid_use_of_sighash_single n input_index outputs_len
      ≡ ((n % 0x20 == 3) && leb outputs_len input_index)
unfolding is_invalid_use_of_sighash_single from_consensus
is_invalid_use_of_sighash_single-base n input_index outputs_len = ground arith

from_standard-eq-some :
    (n : ℕ) (t : EcdsaSighashType) → from_standard n ≡ Option.some t → to_u32 t ≡ n
unfolding from_standard
from_standard-eq-some n t h = ground arith

from_standard-to_u32 : (t : EcdsaSighashType) → from_standard (to_u32 t) ≡ Option.some t
unfolding from_standard
from_standard-to_u32 all = refl
from_standard-to_u32 none = refl
from_standard-to_u32 single = refl
from_standard-to_u32 all_plus_anyone_can_pay = refl
from_standard-to_u32 none_plus_anyone_can_pay = refl
from_standard-to_u32 single_plus_anyone_can_pay = refl

from_consensus-to_u32 : (t : EcdsaSighashType) → from_consensus (to_u32 t) ≡ t
unfolding from_consensus
from_consensus-to_u32 all = refl
from_consensus-to_u32 none = refl
from_consensus-to_u32 single = refl
from_consensus-to_u32 all_plus_anyone_can_pay = refl
from_consensus-to_u32 none_plus_anyone_can_pay = refl
from_consensus-to_u32 single_plus_anyone_can_pay = refl

-- from_standard accepts a number as a type exactly if it is the number of that type, and
-- from_consensus reads the number of a type back as the type.
pub from_standard-IsInverse :
    (n : ℕ) (t : EcdsaSighashType)
    → ((from_standard n ≡ Option.some t) ↔ (to_u32 t ≡ n)) × (from_consensus (to_u32 t) ≡ t)
from_standard-IsInverse n t =
    ((from_standard-eq-some n t, λ e. rw (sym e) (from_standard-to_u32 t)), from_consensus-to_u32 t)

-- ===== src/Blockdata/Script.antt =====
-- Script pubkeys that are witness programs: bitcoin/src/blockdata/script/borrowed.rs, owned.rs and
-- mod.rs, and bitcoin/src/address/script_pubkey.rs. A script is its bytes.
pub mod Laws
use rust_riecoin.Base.{
  ℕ, suc, ◌+◌, ◌-◌, ◌/◌, ◌%◌, ◌^◌, ◌≡◌, refl, sym, ap, ◌↔◌, Bool, true, false, not, ◌&&◌, ◌||◌,
  Option, none, some, List, [], ◌∷◌, ◌++◌, length, length-append, drop, ltb, leb, ◌==◌,
  if◌then◌else◌, arith,
}
use rust_riecoin.Base.Bytes.{to_le_bytes}

-- `TryFrom<Opcode> for WitnessVersion`, the version as its number; `none` is an error.
unfoldable pub from_opcode : ℕ → Option ℕ
from_opcode opcode =
    if opcode == 0
    then some 0
    else if leb 0x51 opcode && leb opcode 0x60
    then some (opcode - 0x51 + 1)
    else none

-- The two bytes in front are there, since the length was checked.
unfoldable pub witness_version : List ℕ → Option ℕ
unfolding from_opcode
witness_version [] = none
witness_version (b ∷ []) = none
witness_version (ver_opcode ∷ push_opbyte ∷ rest) =
    let script_len = length rest + 2 in
    if not (leb 4 script_len && leb script_len 42)
    then none
    else if ltb push_opbyte 2 || ltb 40 push_opbyte
    then none
    else if not (script_len - 2 == push_opbyte)
    then none
    else from_opcode ver_opcode

-- `… == Some(WitnessVersion::V0)`
abbrev pub is_v0 : Option ℕ → Bool
is_v0 none = false
is_v0 (some v) = v == 0

abbrev second_is : List ℕ → ℕ → Bool
second_is [] opcode = false
second_is (b ∷ []) opcode = false
second_is (b ∷ b' ∷ rest) opcode = b' == opcode

unfoldable pub is_p2wpkh : List ℕ → Bool
unfolding witness_version
is_p2wpkh script = (length script == 22) && is_v0 (witness_version script) && second_is script 0x14

unfoldable pub is_p2wsh : List ℕ → Bool
unfolding witness_version
is_p2wsh script = (length script == 34) && is_v0 (witness_version script) && second_is script 0x20

-- `push_slice_no_opt`: the push opcode for the length, and the data.
unfoldable pub push_slice : List ℕ → List ℕ
push_slice data_bytes =
    let n = length data_bytes in
    (if ltb n 0x4c
      then n ∷ []
      else if ltb n 0x100
      then 0x4c ∷ n ∷ []
      else if ltb n 0x1_0000
      then 0x4d ∷ n % 0x100 ∷ n / 0x100 ∷ []
      else 0x4e
        ∷ n % 0x100
        ∷ n / 0x100 % 0x100
        ∷ n / 0x1_0000 % 0x100
        ∷ n / 0x100_0000 % 0x100
        ∷ [])
    ++ data_bytes

-- `p2wpkh_script_code` of a hash: DUP, HASH160, the hash, EQUALVERIFY, CHECKSIG.
unfoldable pub script_code : List ℕ → List ℕ
unfolding push_slice
script_code wpkh = (0x76 ∷ 0xa9 ∷ push_slice wpkh) ++ (0x88 ∷ 0xac ∷ [])

unfoldable pub p2wpkh_script_code : List ℕ → Option (List ℕ)
unfolding is_p2wpkh script_code
p2wpkh_script_code script = if is_p2wpkh script then some (script_code (drop 2 script)) else none

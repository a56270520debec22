-- ===== src/Crypto/Sighash/Taproot.antt =====
-- The Taproot signing data (BIP 341) of bitcoin/src/crypto/sighash.rs.
pub mod Message
use rust_riecoin.Base.{
  ℕ, ◌%◌, ◌^◌, Bool, true, false, not, ◌||◌, ◌&&◌, ◌+◌, Option, none, some, List, ◌∷◌, ◌++◌, length,
  get_elem?, if◌then◌else◌,
}
use rust_riecoin.Primitives.Transaction.{TxIn, TxOut, Transaction}
use rust_riecoin.Consensus.Codec.Fixed.{u8, u32, array}
use rust_riecoin.Consensus.Vec.{bytes}
use rust_riecoin.Blockdata.Transaction.{amount, lock_time, out_point, tx_out}
use rust_riecoin.Crypto.Sighash.TapType.{TapSighashType, single, split_anyonecanpay_flag, to_u8, eq}
use rust_riecoin.Crypto.Sighash.TapType as Tap
use rust_riecoin.Crypto.Sighash.Prevouts.{
  Outcome, ok, err, panic, TaprootError, inputs_index, prevouts_index, single_missing_output, ok_or,
  map_err, tx_in, Prevouts, check_all, get_all, get, Annex, encode_annex,
}
use rust_riecoin.Crypto.Sighash.Cache.{
  SighashCache, Sign, Run, ◌>>=◌, lift, skip, emit, transaction, finish, common_cache,
  taproot_cache,
}

-- `sighash != TapSighashType::None && sighash != TapSighashType::Single`
abbrev pub signs_all : TapSighashType → Bool
signs_all sighash = not (eq sighash Tap.none) && not (eq sighash single)

abbrev pub key_version_0 : ℕ
key_version_0 = 0

-- `spend_type |= 1u8` and `spend_type |= 2u8` on 0.
abbrev pub spend_type : Option Annex → Option (List ℕ × ℕ) → ℕ
spend_type none none = 0
spend_type (some annex) none = 1
spend_type none (some leaf) = 2
spend_type (some annex) (some leaf) = 3

-- The leaf hash, the key version and the position of the last `OP_CODESEPARATOR`.
abbrev pub write_leaf : Option (List ℕ × ℕ) → Sign {0} TaprootError Unit
write_leaf none = skip
write_leaf (some (hash, code_separator_pos)) = do
  _ ← emit ((array 32).consensus_encode hash)
  _ ← emit (u8.consensus_encode key_version_0)
  emit (u32.consensus_encode code_separator_pos)

module _ (sha256 : List ℕ → List ℕ) where
  -- The block under `if !anyone_can_pay`.
  abbrev pub write_all_inputs : Prevouts → Bool → Sign {0} TaprootError Unit
  write_all_inputs prevouts true = skip
  write_all_inputs prevouts false = do
    common ← common_cache sha256
    _ ← emit ((array 32).consensus_encode common.prevouts)
    spent ← lift (get_all prevouts)
    taproot ← taproot_cache sha256 spent
    _ ← emit ((array 32).consensus_encode taproot.amounts)
    again ← lift (get_all prevouts)
    taproot' ← taproot_cache sha256 again
    _ ← emit ((array 32).consensus_encode taproot'.script_pubkeys)
    common' ← common_cache sha256
    emit ((array 32).consensus_encode common'.sequences)

  abbrev pub write_all_outputs : Bool → Sign {0} TaprootError Unit
  write_all_outputs false = skip
  write_all_outputs true = do
    common ← common_cache sha256
    emit ((array 32).consensus_encode common.outputs)

  -- The data about this input: itself, or its index as a `u32`.
  abbrev pub write_input : Prevouts → ℕ → Bool → Sign {0} TaprootError Unit
  write_input prevouts input_index false = emit (u32.consensus_encode (input_index % 2 ^ 32))
  write_input prevouts input_index true = do
    tx ← transaction
    txin ← lift (map_err inputs_index (tx_in tx input_index))
    previous_output ← lift (map_err prevouts_index (get prevouts input_index))
    _ ← emit (out_point.consensus_encode txin.previous_output)
    _ ← emit (amount.consensus_encode previous_output.value)
    _ ← emit (bytes.consensus_encode previous_output.script_pubkey)
    emit (u32.consensus_encode txin.sequence)

  abbrev pub write_annex : Option Annex → Sign {0} TaprootError Unit
  write_annex none = skip
  write_annex (some annex) = emit ((array 32).consensus_encode (sha256 (encode_annex annex).bytes))

  abbrev pub write_single_output : ℕ → Bool → Sign {0} TaprootError Unit
  write_single_output input_index false = skip
  write_single_output input_index true = do
    tx ← transaction
    txout ← lift (
        ok_or (single_missing_output input_index (length tx.output))
          (get_elem? tx.output input_index))
    emit ((array 32).consensus_encode (sha256 (tx_out.consensus_encode txout).bytes))

  unfoldable pub taproot_encode_signing_data_to :
      ℕ
      → Prevouts
      → Option Annex
      → Option (List ℕ × ℕ)
      → TapSighashType
      → Sign {0} TaprootError Unit
  taproot_encode_signing_data_to input_index prevouts annex leaf_hash_code_separator sighash_type =
      let (sighash, anyone_can_pay) = split_anyonecanpay_flag sighash_type in
      do
        tx ← transaction
        _ ← lift (check_all prevouts tx)
        _ ← emit (u8.consensus_encode 0)
        _ ← emit (u8.consensus_encode (to_u8 sighash_type))
        _ ← emit (u32.consensus_encode tx.version)
        _ ← emit (lock_time.consensus_encode tx.lock_time)
        _ ← write_all_inputs prevouts anyone_can_pay
        _ ← write_all_outputs (signs_all sighash)
        _ ← emit (u8.consensus_encode (spend_type annex leaf_hash_code_separator))
        _ ← write_input prevouts input_index anyone_can_pay
        _ ← write_annex annex
        _ ← write_single_output input_index (eq sighash single)
        write_leaf leaf_hash_code_separator

  -- `tap_sighash` is the tagged hash of `TapSighashTag`.
  module _ (tap_sighash : List ℕ → List ℕ) where
    unfoldable pub taproot_signature_hash :
        ℕ
        → Prevouts
        → Option Annex
        → Option (List ℕ × ℕ)
        → TapSighashType
        → SighashCache
        → SighashCache × Outcome TaprootError (List ℕ)
    unfolding taproot_encode_signing_data_to
    taproot_signature_hash input_index prevouts annex leaf_hash_code_separator sighash_type c =
        finish tap_sighash (
          taproot_encode_signing_data_to input_index prevouts annex leaf_hash_code_separator
            sighash_type c)

    unfoldable pub taproot_key_spend_signature_hash :
        ℕ → Prevouts → TapSighashType → SighashCache → SighashCache × Outcome TaprootError (List ℕ)
    unfolding taproot_encode_signing_data_to
    taproot_key_spend_signature_hash input_index prevouts sighash_type c =
        finish tap_sighash
          (taproot_encode_signing_data_to input_index prevouts none none sighash_type c)

    unfoldable pub taproot_script_spend_signature_hash :
        ℕ
        → Prevouts
        → List ℕ
        → TapSighashType
        → SighashCache
        → SighashCache × Outcome TaprootError (List ℕ)
    unfolding taproot_encode_signing_data_to
    taproot_script_spend_signature_hash input_index prevouts leaf_hash sighash_type c =
        finish tap_sighash (
          taproot_encode_signing_data_to input_index prevouts none (some (leaf_hash, 0xffff_ffff))
            sighash_type c)

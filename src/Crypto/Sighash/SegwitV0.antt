-- ===== src/Crypto/Sighash/SegwitV0.antt =====
-- The SegWit version 0 signing data (BIP 143) of bitcoin/src/crypto/sighash.rs.
pub mod Message
use rust_riecoin.Base.{
  ℕ, Bool, true, false, not, ◌||◌, ◌&&◌, Option, none, some, List, ◌∷◌, ◌++◌, length, take, drop,
  replicate, ltb, ◌==◌, if◌then◌else◌,
}
use rust_riecoin.Units.Amount.{Amount}
use rust_riecoin.Primitives.Transaction.{TxIn, TxOut, Transaction}
use rust_riecoin.Consensus.Io.{sized}
use rust_riecoin.Consensus.Codec.Fixed.{u32, array}
use rust_riecoin.Consensus.Vec.{bytes}
use rust_riecoin.Blockdata.Transaction.{amount, lock_time, out_point, tx_out}
use rust_riecoin.Crypto.Sighash.EcdsaType.{
  EcdsaSighashType, single, split_anyonecanpay_flag, to_u32, eq,
}
use rust_riecoin.Crypto.Sighash.EcdsaType as Ecdsa
use rust_riecoin.Crypto.Sighash.Prevouts.{
  Outcome, ok, err, panic, InputsIndexError, ok_or, at_index, map_err, tx_in,
}
use rust_riecoin.Blockdata.Script.{p2wpkh_script_code}
use rust_riecoin.Crypto.Sighash.Cache.{
  SighashCache, SegwitCache, Sign, Run, ◌>>=◌, lift, emit, transaction, segwit_cache, finish,
}

abbrev pub zero_hash : List ℕ
zero_hash = replicate 32 0

-- `sighash != EcdsaSighashType::Single && sighash != EcdsaSighashType::None`
abbrev pub signs_all : EcdsaSighashType → Bool
signs_all low = not (eq low single) && not (eq low Ecdsa.none)

pub data P2wpkhError : Type 0 where
  sighash : InputsIndexError → P2wpkhError
  not_p2wpkh_script : P2wpkhError

module _ (sha256 : List ℕ → List ℕ) where
  abbrev pub sha256d : List ℕ → List ℕ
  sha256d bs = sha256 (sha256 bs)

  -- A 32-byte group of the cache, or zeros.
  abbrev pub hash_or_zero : {E : Type 0} → Bool → (SegwitCache → List ℕ) → Sign {0} E Unit
  hash_or_zero true group = do
    segwit ← segwit_cache sha256
    emit ((array 32).consensus_encode (group segwit))
  hash_or_zero false group = emit ((array 32).consensus_encode zero_hash)

  -- The last hash when not all outputs are signed.
  abbrev pub one_output : {E : Type 0} → Bool → List TxOut → ℕ → Sign {0} E Unit
  one_output true output input_index = do
    txout ← lift (at_index output input_index)
    let hash = sha256d (tx_out.consensus_encode txout).bytes
    emit (sized hash (length hash))
  one_output false output input_index = emit (sized zero_hash 32)

  abbrev pub output_hash : {E : Type 0} → EcdsaSighashType → List TxOut → ℕ → Sign {0} E Unit
  output_hash low output input_index = elim (signs_all low) [
    | true ↦ hash_or_zero true (λ segwit. segwit.outputs)
    | false ↦ one_output (eq low single && ltb input_index (length output)) output input_index
  ]

  unfoldable pub segwit_v0_encode_signing_data_to :
      ℕ → List ℕ → Amount → EcdsaSighashType → Sign {0} InputsIndexError Unit
  segwit_v0_encode_signing_data_to input_index script_code value sighash_type =
      let (low, anyone_can_pay) = split_anyonecanpay_flag sighash_type in
      do
        tx ← transaction
        _ ← emit (u32.consensus_encode tx.version)
        _ ← hash_or_zero (not anyone_can_pay) (λ segwit. segwit.prevouts)
        _ ← hash_or_zero (not anyone_can_pay && signs_all low) (λ segwit. segwit.sequences)
        txin ← lift (tx_in tx input_index)
        _ ← emit (out_point.consensus_encode txin.previous_output)
        _ ← emit (bytes.consensus_encode script_code)
        _ ← emit (amount.consensus_encode value)
        _ ← emit (u32.consensus_encode txin.sequence)
        _ ← output_hash low tx.output input_index
        _ ← emit (lock_time.consensus_encode tx.lock_time)
        emit (u32.consensus_encode (to_u32 sighash_type))

  unfoldable pub p2wsh_signature_hash :
      ℕ
      → List ℕ
      → Amount
      → EcdsaSighashType
      → SighashCache
      → SighashCache × Outcome InputsIndexError (List ℕ)
  unfolding segwit_v0_encode_signing_data_to
  p2wsh_signature_hash input_index witness_script value sighash_type c =
      finish sha256d
        (segwit_v0_encode_signing_data_to input_index witness_script value sighash_type c)

  -- `P2wpkhError`, around the errors of the encoder.
  unfoldable pub p2wpkh_signature_hash :
      ℕ
      → List ℕ
      → Amount
      → EcdsaSighashType
      → SighashCache
      → SighashCache × Outcome P2wpkhError (List ℕ)
  unfolding segwit_v0_encode_signing_data_to
  p2wpkh_signature_hash input_index script_pubkey value sighash_type c =
      elim (p2wpkh_script_code script_pubkey) [
        | none ↦ (c, err not_p2wpkh_script)
        | some script_code ↦
            let (c', result) =
              finish sha256d
                (segwit_v0_encode_signing_data_to input_index script_code value sighash_type c) in
            (c', map_err sighash result)
      ]

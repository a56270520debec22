-- ===== src/Crypto/Sighash/Legacy.antt =====
-- The signing data of inputs without a witness, of bitcoin/src/crypto/sighash.rs. The functions take
-- `&self`, so that they give no cache back.
pub mod Message
pub mod Parts
use rust_riecoin.Base.{
  ℕ, zero, suc, ◌+◌, ◌-◌, ◌^◌, min, Bool, true, false, not, ◌||◌, ◌&&◌, List, [], ◌∷◌, ◌++◌, length,
  get_elem?, replicate, ◌==◌, if◌then◌else◌,
}
use rust_riecoin.Primitives.Transaction.{TxIn, TxOut, Transaction}
use rust_riecoin.Consensus.Io.{Written, sized, emit_compact_size}
use rust_riecoin.Consensus.Codec.Fixed.{u32, array}
use rust_riecoin.Consensus.Vec.{bytes, vec}
use rust_riecoin.Blockdata.Transaction.{lock_time, out_point, tx_out}
use rust_riecoin.Base.Bytes.{to_le_bytes}
use rust_riecoin.Crypto.Sighash.EcdsaType as Ecdsa
use rust_riecoin.Crypto.Sighash.EcdsaType.{
  EcdsaSighashType, split_anyonecanpay_flag, eq, from_consensus, is_invalid_use_of_sighash_single,
}
use rust_riecoin.Crypto.Sighash.Prevouts.{
  Outcome, ok, err, panic, InputsIndexError, at_index, tx_in,
}
use rust_riecoin.Crypto.Sighash.Cache.{SighashCache, Run}

-- `UINT256_ONE`
abbrev pub uint256_one : List ℕ
uint256_one = 1 ∷ replicate 31 0

abbrev pub sequence_zero : ℕ
sequence_zero = 0

-- The "NULL txout": the largest `u64`, and an empty script.
abbrev pub null_txout : List ℕ
null_txout = replicate 8 0xff ++ 0x00 ∷ []

pub data EncodeSigningDataResult (E : Type 0) : Type 0 where
  sighash_single_bug : EncodeSigningDataResult E
  write_result : Outcome {0} E Unit → EncodeSigningDataResult E

abbrev pub is_sighash_single_bug : {E : Type 0} → EncodeSigningDataResult E → Outcome {0} E Bool
is_sighash_single_bug sighash_single_bug = ok true
is_sighash_single_bug (write_result (ok u)) = ok false
is_sighash_single_bug (write_result (err e)) = err e
is_sighash_single_bug (write_result panic) = panic

-- `sighash == EcdsaSighashType::Single || sighash == EcdsaSighashType::None`
abbrev pub frees_others : EcdsaSighashType → Bool
frees_others sighash = eq sighash Ecdsa.single || eq sighash Ecdsa.none

-- What is written, and whether it ends well. There is no cache here.
abbrev pub Write : Type 0
Write = Run {0} InputsIndexError Unit

abbrev pub skip : Write
skip = record { written = []; result = ok tt }

abbrev pub emit : Written → Write
emit w = record { written = w.bytes; result = ok tt }

-- A panic before anything is written.
abbrev pub crash : Write
crash = record { written = []; result = panic }

abbrev pub value {ℓ} : {A : Type ℓ} → Outcome InputsIndexError A → Run InputsIndexError A
value o = record { written = []; result = o }

abbrev pub continue {ℓ} : {A : Type ℓ} → List ℕ → Outcome InputsIndexError A → (A → Write) → Write
continue bs (ok a) next = let r = next a in record { written = bs ++ r.written; result = r.result }
continue bs (err e) next = record { written = bs; result = err e }
continue bs panic next = record { written = bs; result = panic }

infixl 5 ◌>>=◌
abbrev pub ◌>>=◌ {ℓ} : {A : Type ℓ} → Run InputsIndexError A → (A → Write) → Write
r >>= next = continue r.written r.result next

-- `for _ in 0..count`
unfoldable pub write_null_txouts : ℕ → Write
write_null_txouts zero = skip
write_null_txouts (suc count) = do _ ← emit (sized null_txout 9); write_null_txouts count

-- `match sighash`: the split leaves three cases.
abbrev pub write_outputs : ℕ → EcdsaSighashType → Transaction → Write
write_outputs input_index Ecdsa.all tx = emit ((vec tx_out).consensus_encode tx.output)
write_outputs input_index Ecdsa.single tx =
    let count = min input_index (length tx.output - 1) in
    do
      _ ← emit (emit_compact_size (count + 1))
      _ ← write_null_txouts count
      txout ← value (at_index tx.output count)
      emit (tx_out.consensus_encode txout)
write_outputs input_index Ecdsa.none tx = emit (emit_compact_size 0)
write_outputs input_index Ecdsa.all_plus_anyone_can_pay tx = crash
write_outputs input_index Ecdsa.none_plus_anyone_can_pay tx = crash
write_outputs input_index Ecdsa.single_plus_anyone_can_pay tx = crash

module _ (input_index : ℕ) (script_pubkey : List ℕ) (sighash : EcdsaSighashType) where
  -- `for (n, input) in self_.input.iter().enumerate()`
  unfoldable pub write_inputs : ℕ → List TxIn → Write
  write_inputs n [] = skip
  write_inputs n (input ∷ rest) = do
    _ ← emit (out_point.consensus_encode input.previous_output)
    _ ← emit (bytes.consensus_encode (if n == input_index then script_pubkey else []))
    _ ← emit (
        u32.consensus_encode (
          if not (n == input_index) && frees_others sighash then sequence_zero else input.sequence))
    write_inputs (suc n) rest

  abbrev pub write_all_or_one_input : Bool → Transaction → Write
  write_all_or_one_input true tx = do
    _ ← emit (emit_compact_size 1)
    input ← value (at_index tx.input input_index)
    _ ← emit (out_point.consensus_encode input.previous_output)
    _ ← emit (bytes.consensus_encode script_pubkey)
    emit (u32.consensus_encode input.sequence)
  write_all_or_one_input false tx = do
    _ ← emit (emit_compact_size (length tx.input))
    write_inputs 0 tx.input

unfoldable pub encode_signing_data_to_inner : Transaction → ℕ → List ℕ → ℕ → Write
unfolding write_inputs write_null_txouts from_consensus
encode_signing_data_to_inner tx input_index script_pubkey sighash_type =
    let (sighash, anyone_can_pay) = split_anyonecanpay_flag (from_consensus sighash_type) in
    do
      _ ← emit (u32.consensus_encode tx.version)
      _ ← write_all_or_one_input input_index script_pubkey sighash anyone_can_pay tx
      _ ← write_outputs input_index sighash tx
      _ ← emit (lock_time.consensus_encode tx.lock_time)
      emit ((array 4).consensus_encode (to_le_bytes 4 sighash_type))

-- The bytes written, and the result.
unfoldable pub legacy_encode_signing_data_to :
    ℕ → List ℕ → ℕ → SighashCache → List ℕ × EncodeSigningDataResult InputsIndexError
unfolding tx_in encode_signing_data_to_inner
legacy_encode_signing_data_to input_index script_pubkey sighash_type c =
    let inner = encode_signing_data_to_inner c.tx input_index script_pubkey sighash_type in
    elim (tx_in c.tx input_index) [
      | err e ↦ ([], write_result (err e))
      | panic ↦ ([], write_result panic)
      | ok _ ↦
          if is_invalid_use_of_sighash_single sighash_type input_index (length c.tx.output)
          then ([], sighash_single_bug)
          else (inner.written, write_result inner.result)
    ]

module _ (sha256d : List ℕ → List ℕ) where
  abbrev pub finish_legacy :
      List ℕ × EncodeSigningDataResult InputsIndexError → Outcome InputsIndexError (List ℕ)
  finish_legacy (engine, result) = elim (is_sighash_single_bug result) [
    | ok true ↦ ok uint256_one
    | ok false ↦ ok (sha256d engine)
    | err e ↦ err e
    | panic ↦ panic
  ]

  unfoldable pub legacy_signature_hash :
      ℕ → List ℕ → ℕ → SighashCache → Outcome InputsIndexError (List ℕ)
  unfolding legacy_encode_signing_data_to
  legacy_signature_hash input_index script_pubkey sighash_type c =
      finish_legacy (legacy_encode_signing_data_to input_index script_pubkey sighash_type c)

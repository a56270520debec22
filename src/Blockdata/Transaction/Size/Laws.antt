-- ===== src/Blockdata/Transaction/Size/Laws.antt =====
-- The computed sizes are the lengths of the encodings.
use rust_riecoin.Base.{
  ℕ, ◌^◌, ◌≤◌, ◌<◌, ◌+◌, ◌*◌, ◌≡◌, refl, ap, ◌∙◌, Bool, some, List, [], ◌∷◌, ◌++◌, length,
  length-append, All, arith, Bool-cases, inl, inr, if◌then◌else◌,
}
use rust_riecoin.Base.Bytes.{length-to_le_bytes}
use rust_riecoin.Internals.CompactSize.{encode, encoded_size}
use rust_riecoin.Internals.CompactSize.RoundTrip.{length-encode}
use rust_riecoin.Units.Weight.{from_wu}
use rust_riecoin.Primitives.Buffer.{Endian}
use rust_riecoin.Primitives.LockTime.{to_consensus_u32}
use rust_riecoin.Primitives.Witness as Witness
use rust_riecoin.Primitives.Witness.Layout.{elements}
use rust_riecoin.Primitives.Witness.Reading.{size-layout}
use rust_riecoin.Primitives.Transaction.{TxIn, TxOut, Transaction, uses_segwit_serialization}
use rust_riecoin.Consensus.Io.{emit_compact_size}
use rust_riecoin.Consensus.Codec.Fixed.{u32}
use rust_riecoin.Consensus.Vec.{max_vec_size, encode_items, consensus_encode_with_size}
use rust_riecoin.Blockdata.Witness.{IsWitness, witness}
use rust_riecoin.Blockdata.Witness.Exact.{written-layout}
use rust_riecoin.Blockdata.Transaction.{
  amount, out_point, tx_in, tx_out, encode_witnesses, encode_transaction,
}
use rust_riecoin.Blockdata.Transaction.Parts.{IsTxIn}
use rust_riecoin.Blockdata.Transaction.Witnesses.{IsInput}
use rust_riecoin.Blockdata.Transaction.RoundTrip.{
  IsTransaction, in_bytes, out_bytes, lock_bytes, version_bytes, wit_bytes, encode-segwit,
  encode-legacy,
}
use rust_riecoin.Blockdata.Transaction.Size.{
  input_base_size, output_size, base_sizes, output_sizes, base_size, total_sizes, total_size,
  weight,
}

length-script :
    (s : List ℕ) → length (consensus_encode_with_size s).bytes ≡ encoded_size (length s) + length s
unfolding consensus_encode_with_size emit_compact_size
length-script s = omega (arith, length-append (encode (length s)) s, length-encode (length s))

length-input : (i : TxIn) → IsTxIn i → length (tx_in.consensus_encode i).bytes ≡ input_base_size i
length-input i h =
    let o = (out_point.consensus_encode i.previous_output).bytes in
    let script = (consensus_encode_with_size i.script_sig).bytes in
    let sequence = (u32.consensus_encode i.sequence).bytes in
    omega (
      arith,
      length-append o (script ++ sequence),
      length-append i.previous_output.txid (u32.consensus_encode i.previous_output.vout).bytes,
      length-append script sequence,
      length-to_le_bytes 4 i.previous_output.vout,
      length-to_le_bytes 4 i.sequence,
      length-script i.script_sig,
      h.0.0.0,
    )

length-output : (o : TxOut) → length (tx_out.consensus_encode o).bytes ≡ output_size o
length-output o = omega (
  arith,
  length-append (amount.consensus_encode o.value).bytes
      (consensus_encode_with_size o.script_pubkey).bytes,
  length-to_le_bytes 8 o.value.sat,
  length-script o.script_pubkey,
)

length-outputs : (os : List TxOut) → length (encode_items tx_out os).bytes ≡ output_sizes os
unfolding encode_items output_sizes
length-outputs [] = refl
length-outputs (o ∷ os) = omega (
  arith,
  length-append (tx_out.consensus_encode o).bytes (encode_items tx_out os).bytes,
  length-output o,
  length-outputs os,
)

module _ (e : Endian) (debug : Bool) where
  length-inputs :
      (xs : List TxIn) → All (IsInput e) xs → length (encode_items tx_in xs).bytes ≡ base_sizes xs
  unfolding encode_items base_sizes
  length-inputs [] h = refl
  length-inputs (i ∷ xs) ((h, _), hs) = omega (
    arith,
    length-append (tx_in.consensus_encode i).bytes (encode_items tx_in xs).bytes,
    length-input i h,
    length-inputs xs hs,
  )

  small_fits :
      (xs : List (List ℕ)) → length (elements xs) ≤ max_vec_size → length (elements xs) < 2 ^ 32
  small_fits xs h = omega arith

  witness_size :
      (w : Witness.Witness)
      → IsWitness e w
      → Witness.size e debug w ≡ some (length ((witness e debug).consensus_encode w).bytes)
  witness_size w v =
      rw
        (
          v.laid_out,
          size-layout e debug v.stack (small_fits v.stack v.small),
          written-layout e debug v.stack v.small,
        )
        (ap some (
          omega (
            arith,
            length-append (encode (length v.stack)) (elements v.stack),
            length-encode (length v.stack),
          )))

  total_sizes-inputs :
      (xs : List TxIn)
      → All (IsInput e) xs
      → total_sizes e debug xs ≡ some (base_sizes xs + length (encode_witnesses e debug xs).bytes)
  unfolding total_sizes base_sizes encode_witnesses
  total_sizes-inputs [] h = refl
  total_sizes-inputs (i ∷ xs) ((_, h), hs) =
      rw (witness_size i.witness h, total_sizes-inputs xs hs)
        (ap some (
          omega (
            arith,
            length-append ((witness e debug).consensus_encode i.witness).bytes
                (encode_witnesses e debug xs).bytes,
          )))

  -- `base_size` is the length of the serialization without witnesses.
  base_size-legacy :
      (tx : Transaction)
      → IsTransaction e tx
      → base_size tx ≡ length (version_bytes tx ++ (in_bytes tx ++ (out_bytes tx ++ lock_bytes tx)))
  unfolding base_size emit_compact_size
  base_size-legacy tx v = omega (
    arith,
    length-append (version_bytes tx) (in_bytes tx ++ (out_bytes tx ++ lock_bytes tx)),
    length-append (in_bytes tx) (out_bytes tx ++ lock_bytes tx),
    length-append (out_bytes tx) (lock_bytes tx),
    length-append (encode (length tx.input)) (encode_items tx_in tx.input).bytes,
    length-append (encode (length tx.output)) (encode_items tx_out tx.output).bytes,
    length-encode (length tx.input),
    length-encode (length tx.output),
    length-inputs tx.input v.input.1,
    length-outputs tx.output,
    length-to_le_bytes 4 tx.version,
    length-to_le_bytes 4 (to_consensus_u32 tx.lock_time),
  )

  abbrev pub lengths : Transaction → ℕ
  lengths tx =
      base_size tx + (if uses_segwit_serialization tx then 2 + length (wit_bytes e debug tx) else 0)

  pub total_size-sum :
      (tx : Transaction) → IsTransaction e tx → total_size e debug tx ≡ some (lengths tx)
  unfolding total_size base_size uses_segwit_serialization
  total_size-sum tx v = elim (Bool-cases (uses_segwit_serialization tx)) [
    | inl h ↦ rw (h, total_sizes-inputs tx.input v.input.1) (ap some (omega arith))
    | inr h ↦ rw h (ap some (omega arith))
  ]

  segwit_sum :
      (v i o w l : List ℕ)
      → length (v ++ (i ++ (o ++ l))) + (2 + length w)
        ≡ length (v ++ (0 ∷ 1 ∷ (i ++ (o ++ (w ++ l)))))
  segwit_sum v i o w l = omega (
    arith,
    length-append v (i ++ (o ++ l)),
    length-append i (o ++ l),
    length-append o l,
    length-append v (0 ∷ 1 ∷ (i ++ (o ++ (w ++ l)))),
    length-append i (o ++ (w ++ l)),
    length-append o (w ++ l),
    length-append w l,
  )

  lengths-encode :
      (tx : Transaction)
      → IsTransaction e tx
      → lengths tx ≡ length (encode_transaction e debug tx).bytes
  lengths-encode tx v = elim (Bool-cases (uses_segwit_serialization tx)) [
    | inl h ↦
        rw (h, encode-segwit e debug tx h, base_size-legacy tx v)
          (segwit_sum (version_bytes tx) (in_bytes tx) (out_bytes tx) (wit_bytes e debug tx)
            (lock_bytes tx))
    | inr h ↦ rw (h, encode-legacy e debug tx h, base_size-legacy tx v) (omega arith)
  ]

  abbrev pub legacy_length : Transaction → ℕ
  legacy_length tx = length (version_bytes tx ++ (in_bytes tx ++ (out_bytes tx ++ lock_bytes tx)))

  pub weight-encode :
      (tx : Transaction)
      → IsTransaction e tx
      → (base_size tx ≡ legacy_length tx)
        × (total_size e debug tx ≡ some (length (encode_transaction e debug tx).bytes))
        × (weight e debug tx
            ≡ some (from_wu (legacy_length tx * 3 + length (encode_transaction e debug tx).bytes)))
  unfolding weight
  weight-encode tx v =
      let total : total_size e debug tx ≡ some (length (encode_transaction e debug tx).bytes) =
        total_size-sum tx v ∙ ap some (lengths-encode tx v) in
      (base_size-legacy tx v, total, rw (total, base_size-legacy tx v) refl)

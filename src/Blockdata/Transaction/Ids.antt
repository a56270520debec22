-- ===== src/Blockdata/Transaction/Ids.antt =====
-- The hashes of a transaction are those of its consensus encodings.
use rust_riecoin.Base.{
  if◌then◌else◌, ◌∙◌, ℕ, ◌^◌, ◌<◌, ◌≤◌, ◌≡◌, refl, Bool, true, false, some, List, [], ◌∷◌, ◌++◌,
  length, append_assoc, All, arith, Bool-cases, inl, inr,
}
use rust_riecoin.Internals.CompactSize.{encode}
use rust_riecoin.Primitives.Buffer.{Endian}
use rust_riecoin.Primitives.Witness.Layout.{elements}
use rust_riecoin.Primitives.Witness.Reading.{to_vec-layout}
use rust_riecoin.Primitives.Transaction.{TxIn, TxOut, Transaction, uses_segwit_serialization}
use rust_riecoin.Primitives.Txid.{
  hash_inputs, hash_outputs, hash_elements, hash_witnesses, hash_transaction, compute_txid,
  compute_wtxid,
}
use rust_riecoin.Consensus.Io.{emit_compact_size}
use rust_riecoin.Consensus.Codec.Fixed.{u32}
use rust_riecoin.Consensus.Vec.{max_vec_size, encode_items, consensus_encode_with_size}
use rust_riecoin.Blockdata.Witness.Exact.{written-layout}
use rust_riecoin.Blockdata.Transaction.{tx_in, tx_out, encode_witnesses, encode_transaction}
use rust_riecoin.Blockdata.Transaction.Witnesses.{IsInput}
use rust_riecoin.Blockdata.Transaction.RoundTrip.{
  IsTransaction, in_bytes, out_bytes, lock_bytes, version_bytes, wit_bytes, encode-segwit,
  encode-legacy,
}

hash_elements-elements : (xs : List (List ℕ)) → hash_elements xs ≡ elements xs
unfolding hash_elements
hash_elements-elements [] = refl
hash_elements-elements (x ∷ xs) = rw (hash_elements-elements xs) (simp append_assoc)

regroup : (a b c d s r : List ℕ) → a ++ b ++ c ++ d ++ s ++ r ≡ ((a ++ b) ++ ((c ++ d) ++ s)) ++ r
regroup a b c d s r = simp append_assoc

hash_inputs-items : (xs : List TxIn) → hash_inputs xs ≡ (encode_items tx_in xs).bytes
unfolding hash_inputs encode_items consensus_encode_with_size emit_compact_size
hash_inputs-items [] = refl
hash_inputs-items (i ∷ xs) = rw (hash_inputs-items xs) (
    regroup i.previous_output.txid (u32.consensus_encode i.previous_output.vout).bytes
      (encode (length i.script_sig)) i.script_sig (u32.consensus_encode i.sequence).bytes
      (encode_items tx_in xs).bytes)

hash_outputs-items : (os : List TxOut) → hash_outputs os ≡ (encode_items tx_out os).bytes
unfolding hash_outputs encode_items consensus_encode_with_size emit_compact_size
hash_outputs-items [] = refl
hash_outputs-items (o ∷ os) = rw (hash_outputs-items os) (simp append_assoc)

module _ (e : Endian) (debug : Bool) where
  small_fits :
      (xs : List (List ℕ)) → length (elements xs) ≤ max_vec_size → length (elements xs) < 2 ^ 32
  small_fits xs h = omega arith

  hash_witnesses-encode :
      (xs : List TxIn)
      → All (IsInput e) xs
      → hash_witnesses e debug xs ≡ some (encode_witnesses e debug xs).bytes
  unfolding hash_witnesses encode_witnesses
  hash_witnesses-encode [] h = refl
  hash_witnesses-encode (i ∷ xs) ((_, v), hs) =
      rw
        (
          v.laid_out,
          to_vec-layout e debug v.stack (small_fits v.stack v.small),
          hash_witnesses-encode xs hs,
          hash_elements-elements v.stack,
          written-layout e debug v.stack v.small,
        )
        (simp append_assoc)

  module _ (sha256d : List ℕ → List ℕ) where
    hash-segwit :
        (tx : Transaction)
        → IsTransaction e tx
        → hash_transaction e debug sha256d tx true
          ≡ some (
              sha256d (
                version_bytes tx
                ++ (0
                    ∷ 1
                    ∷ (in_bytes tx ++ (out_bytes tx ++ (wit_bytes e debug tx ++ lock_bytes tx))))))
    unfolding hash_transaction emit_compact_size
    hash-segwit tx v =
        rw
          (
            hash_witnesses-encode tx.input v.input.1,
            hash_inputs-items tx.input,
            hash_outputs-items tx.output,
          )
          (simp append_assoc)

    hash-legacy :
        (tx : Transaction)
        → hash_transaction e debug sha256d tx false
          ≡ some (sha256d (version_bytes tx ++ (in_bytes tx ++ (out_bytes tx ++ lock_bytes tx))))
    unfolding hash_transaction emit_compact_size
    hash-legacy tx =
        rw (hash_inputs-items tx.input, hash_outputs-items tx.output) (simp append_assoc)

    -- For any hash function, on a transaction whose fields are in range: compute_wtxid is the hash
    -- of the encoding, compute_txid the hash of the serialization without marker, flag and
    -- witnesses, and compute_wtxid is compute_txid for a transaction that does not use the SegWit
    -- serialization.
    pub ids-encode :
        (tx : Transaction)
        → IsTransaction e tx
        → (compute_wtxid e debug sha256d tx ≡ some (sha256d (encode_transaction e debug tx).bytes))
          × (compute_txid e debug sha256d tx
              ≡ some
                  (sha256d (version_bytes tx ++ (in_bytes tx ++ (out_bytes tx ++ lock_bytes tx)))))
          × (compute_wtxid e debug sha256d tx ≡ (
              if uses_segwit_serialization tx
              then some (sha256d (encode_transaction e debug tx).bytes)
              else compute_txid e debug sha256d tx))
    unfolding compute_wtxid compute_txid
    ids-encode tx v = (
      full,
      hash-legacy tx,
      elim (Bool-cases (uses_segwit_serialization tx)) [
        | inl h ↦ full ∙ rw h refl
        | inr h ↦ rw h refl
      ],
    )
      where
        full :
            compute_wtxid e debug sha256d tx ≡ some (sha256d (encode_transaction e debug tx).bytes)
        full = elim (Bool-cases (uses_segwit_serialization tx)) [
          | inl h ↦ rw (h, encode-segwit e debug tx h) (hash-segwit tx v)
          | inr h ↦ rw (h, encode-legacy e debug tx h) (hash-legacy tx)
        ]

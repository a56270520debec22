-- ===== src/Blockdata/Transaction/Exact.antt =====
-- The laws of `Encodable` and `Decodable` for `Transaction`.
use rust_riecoin.Base.{
  ℕ, ◌≡◌, ◌≢◌, refl, subst, Bool, true, false, not, ◌&&◌, ◌++◌, ltb, ◌==◌, if◌then◌else◌, map,
  length, length-append, arith, Bool-cases, inl, inr,
}
use rust_riecoin.Primitives.Buffer.{Endian}
use rust_riecoin.Primitives.Transaction.{Transaction, any_witness, uses_segwit_serialization}
use rust_riecoin.Consensus.Result.{ok, panic, >>=-ne-panic, if-ne-panic}
use rust_riecoin.Consensus.Io.{Reader, Written, ◌⊕◌}
use rust_riecoin.Consensus.Codec.{IsExact}
use rust_riecoin.Consensus.Codec.Fixed.{u8, u32, u8-IsExact}
use rust_riecoin.Consensus.Vec.{vec}
use rust_riecoin.Blockdata.Transaction.{
  segwit_marker, segwit_flag, tx_in, tx_out, lock_time, encode_witnesses, decode_witnesses,
  encode_transaction, decode_segwit, decode_transaction, transaction,
}
use rust_riecoin.Blockdata.Transaction.Parts.{bare, lock_time-IsExact}
use rust_riecoin.Blockdata.Transaction.Witnesses.{
  encode_witnesses-counts, decode_witnesses-ne-panic,
}
use rust_riecoin.Blockdata.Transaction.RoundTrip.{
  IsTransaction, inputs_exact, outputs_exact, version_exact, vec-bare, IsVec-bare,
  decode-encode-segwit, decode-encode-legacy,
}
use rust_riecoin.Blockdata.Transaction.Canonical.{decode_transaction-eq-ok}

abbrev Counted : Written → Type 0
Counted w = w.len ≡ length w.bytes

⊕-counts : (w v : Written) → Counted w → Counted v → Counted (w ⊕ v)
⊕-counts w v p q = omega (arith, length-append w.bytes v.bytes)

if-counts : (b : Bool) (w v : Written) → Counted w → Counted v → Counted (if b then w else v)
if-counts true w v p q = p
if-counts false w v p q = q

module _ (e : Endian) (debug : Bool) where
  -- Both serializations round-trip.
  decode-encode_transaction :
      (tx : Transaction) (rest : Reader)
      → IsTransaction e tx
      → decode_transaction e debug ((encode_transaction e debug tx).bytes ++ rest) ≡ ok (tx, rest)
  decode-encode_transaction tx rest v = elim (Bool-cases (uses_segwit_serialization tx)) [
    | inl h ↦ decode-encode-segwit e debug tx rest v h
    | inr h ↦ decode-encode-legacy e debug tx rest v h
  ]

  decode_segwit-ne-panic : (version : ℕ) (r : Reader) → decode_segwit e debug version r ≢ panic
  unfolding decode_segwit
  decode_segwit-ne-panic version r =
      >>=-ne-panic ((vec tx_in).consensus_decode_from_finite_reader r) _
        (inputs_exact.never_panics r)
        (λ p e₁.
          >>=-ne-panic ((vec tx_out).consensus_decode_from_finite_reader p.1) _
            (outputs_exact.never_panics p.1)
            (λ q e₂.
              >>=-ne-panic (decode_witnesses e debug p.0 q.1) _
                (decode_witnesses-ne-panic e debug p.0 q.1)
                (λ w e₃.
                  if-ne-panic (ltb 0 (length w.0) && not (any_witness w.0)) _ _ (λ h. cc)
                    (>>=-ne-panic (lock_time.consensus_decode_from_finite_reader w.1) _
                      (lock_time-IsExact.never_panics w.1) (λ t e₄ h. cc)))))

  decode_transaction-ne-panic : (r : Reader) → decode_transaction e debug r ≢ panic
  unfolding decode_transaction
  decode_transaction-ne-panic r =
      >>=-ne-panic (u32.consensus_decode_from_finite_reader r) _ (version_exact.never_panics r)
        (λ v e₁.
          >>=-ne-panic ((vec tx_in).consensus_decode_from_finite_reader v.1) _
            (inputs_exact.never_panics v.1)
            (λ p e₂.
              if-ne-panic (length p.0 == 0) _ _
                (>>=-ne-panic (u8.consensus_decode_from_finite_reader p.1) _
                  (u8-IsExact.never_panics p.1)
                  (λ m e₃. if-ne-panic (m.0 == 1) _ _ (decode_segwit-ne-panic v.0 m.1) (λ h. cc)))
                (>>=-ne-panic ((vec tx_out).consensus_decode_from_finite_reader p.1) _
                  (outputs_exact.never_panics p.1)
                  (λ q e₃.
                    >>=-ne-panic (lock_time.consensus_decode_from_finite_reader q.1) _
                      (lock_time-IsExact.never_panics q.1) (λ t e₄ h. cc)))))

  encode_transaction-counts :
      (tx : Transaction)
      → IsTransaction e tx
      → (encode_transaction e debug tx).len ≡ length (encode_transaction e debug tx).bytes
  unfolding encode_transaction
  encode_transaction-counts tx v =
      let i : Written = (vec tx_in).consensus_encode tx.input in
      let o : Written = (vec tx_out).consensus_encode tx.output in
      let w : Written = encode_witnesses e debug tx.input in
      let m : Written = u8.consensus_encode segwit_marker in
      let f : Written = u8.consensus_encode segwit_flag in
      let l : Written = lock_time.consensus_encode tx.lock_time in
      let legacy = not (uses_segwit_serialization tx) in
      let body : Written = if legacy then i ⊕ o else (m ⊕ f ⊕ i ⊕ o ⊕ w) in
      let ins : Counted i =
        subst Counted (vec-bare tx.input)
          (inputs_exact.counts (map bare tx.input) (IsVec-bare e tx.input v.input)) in
      let outs : Counted o = outputs_exact.counts tx.output v.output in
      let wits : Counted w = encode_witnesses-counts e debug tx.input v.input.1 in
      let marked =
        ⊕-counts m (f ⊕ i ⊕ o ⊕ w) refl
          (⊕-counts f (i ⊕ o ⊕ w) refl (⊕-counts i (o ⊕ w) ins (⊕-counts o w outs wits))) in
      ⊕-counts (u32.consensus_encode tx.version) (body ⊕ l)
        (version_exact.counts tx.version v.version)
        (⊕-counts body l
          (if-counts legacy (i ⊕ o) (m ⊕ f ⊕ i ⊕ o ⊕ w) (⊕-counts i o ins outs) marked)
          (lock_time-IsExact.counts tx.lock_time v.lock_time))

  -- A transaction whose fields are in range and whose witnesses are stacks of at most 4,000,000
  -- bytes is read back from its encoding, whatever follows, with and without the SegWit marker;
  -- the number returned is the number of bytes written; whatever bytes decode to a transaction are
  -- the encoding of that transaction, whose fields are in range; the decoder never panics.
  pub transaction-IsExact : IsExact (transaction e debug) (IsTransaction e)
  transaction-IsExact = record {
    counts = encode_transaction-counts;
    decode-encode = decode-encode_transaction;
    encode-decode = decode_transaction-eq-ok e debug;
    never_panics = decode_transaction-ne-panic;
  }

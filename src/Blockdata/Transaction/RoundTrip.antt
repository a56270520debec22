-- ===== src/Blockdata/Transaction/RoundTrip.antt =====
-- A transaction is read back from its encoding, in both serializations.
use rust_riecoin.Base.{
  ℕ, ◌^◌, ◌<◌, ◌≡◌, refl, sym, ap, ap₂, ◌∙◌, subst, Bool, true, false, not, ◌&&◌, List, [], ◌∷◌,
  ◌++◌, ltb, ◌==◌, if◌then◌else◌, map, length, append_assoc, All, arith,
}
use rust_riecoin.Internals.CompactSize.{encode}
use rust_riecoin.Primitives.Buffer.{Endian}
use rust_riecoin.Primitives.LockTime.Laws.{IsLockTime}
use rust_riecoin.Primitives.Transaction.{
  TxIn, Transaction, any_witness, no_inputs, uses_segwit_serialization,
}
use rust_riecoin.Consensus.Result.{ok}
use rust_riecoin.Consensus.Io.{Reader, ◌⊕◌, emit_compact_size}
use rust_riecoin.Consensus.Codec.{IsExact}
use rust_riecoin.Consensus.Codec.Fixed.{u8, u32, int-IsExact, u8-IsExact}
use rust_riecoin.Consensus.Vec.{encode_items, vec}
use rust_riecoin.Consensus.Vec.Exact.{IsVec, vec-IsExact}
use rust_riecoin.Blockdata.Transaction.{
  tx_in, tx_out, lock_time, encode_witnesses, encode_transaction, decode_segwit, decode_transaction,
}
use rust_riecoin.Blockdata.Transaction.Parts.{
  IsTxOut, bare, tx_in-IsExact, tx_out-IsExact, lock_time-IsExact,
}
use rust_riecoin.Blockdata.Transaction.Witnesses.{
  IsBare, IsInput, decode_witnesses-encode_witnesses, no_elements, encode_items-bare, length-bare,
}

-- What the fields of a transaction hold.
pub record IsTransaction (e : Endian) (tx : Transaction) : Type 0 where
  pub version : tx.version < 2 ^ 32
  pub lock_time : IsLockTime tx.lock_time
  pub input : IsVec (IsInput e) tx.input
  pub output : IsVec IsTxOut tx.output

abbrev pub inputs_exact : IsExact (vec tx_in) (IsVec IsBare)
inputs_exact = vec-IsExact tx_in-IsExact

abbrev pub outputs_exact : IsExact (vec tx_out) (IsVec IsTxOut)
outputs_exact = vec-IsExact tx_out-IsExact

abbrev pub version_exact : IsExact u32 (λ v. v < 256 ^ 4)
version_exact = int-IsExact 4

pub vec-bare :
    (xs : List TxIn) → (vec tx_in).consensus_encode (map bare xs) ≡ (vec tx_in).consensus_encode xs
vec-bare xs = ap₂ (λ n o. emit_compact_size n ⊕ o) (length-bare xs) (encode_items-bare xs)

module _ (e : Endian) where
  All-bare : (xs : List TxIn) → All (IsInput e) xs → All IsBare (map bare xs)
  All-bare [] h = h
  All-bare (i ∷ xs) ((h, _), hs) = ((h, refl), All-bare xs hs)

  pub IsVec-bare : (xs : List TxIn) → IsVec (IsInput e) xs → IsVec IsBare (map bare xs)
  IsVec-bare xs (few, h) = (rw length-bare few, All-bare xs h)

  -- Without a witness, an input is what its encoding says.
  pub bare-same : (xs : List TxIn) → All (IsInput e) xs → any_witness xs ≡ false → map bare xs ≡ xs
  unfolding any_witness
  bare-same [] h g = refl
  bare-same (i ∷ xs) ((_, h), hs) g =
      ap₂ (λ w rest. record i { witness = w } ∷ rest)
        (sym (no_elements e i.witness h (ground arith))) (bare-same xs hs (ground arith))

-- With the flag there is a witness or no input at all.
flagged :
    (xs : List TxIn)
    → (if any_witness xs then true else no_inputs xs) ≡ true
    → (ltb 0 (length xs) && not (any_witness xs)) ≡ false
unfolding any_witness
flagged [] h = refl
flagged (i ∷ xs) h = ground arith

not_flagged :
    (xs : List TxIn)
    → (if any_witness xs then true else no_inputs xs) ≡ false
    → (any_witness xs ≡ false) × ((length xs == 0) ≡ false)
unfolding any_witness
not_flagged [] h = cc
not_flagged (i ∷ xs) h = ground arith

abbrev pub in_bytes : Transaction → List ℕ
in_bytes tx = ((vec tx_in).consensus_encode tx.input).bytes

abbrev pub out_bytes : Transaction → List ℕ
out_bytes tx = ((vec tx_out).consensus_encode tx.output).bytes

abbrev pub lock_bytes : Transaction → List ℕ
lock_bytes tx = (lock_time.consensus_encode tx.lock_time).bytes

abbrev pub version_bytes : Transaction → List ℕ
version_bytes tx = (u32.consensus_encode tx.version).bytes

module _ (e : Endian) (debug : Bool) where
  abbrev pub wit_bytes : Transaction → List ℕ
  wit_bytes tx = (encode_witnesses e debug tx.input).bytes

  read_inputs :
      (xs : List TxIn) (rest : Reader)
      → IsVec (IsInput e) xs
      → (vec tx_in).consensus_decode_from_finite_reader
          (((vec tx_in).consensus_encode xs).bytes ++ rest)
        ≡ ok (map bare xs, rest)
  read_inputs xs rest h =
      subst
        (λ o.
          (vec tx_in).consensus_decode_from_finite_reader (o.bytes ++ rest)
          ≡ ok (map bare xs, rest))
        (vec-bare xs) (inputs_exact.decode-encode (map bare xs) rest (IsVec-bare e xs h))

  -- The two serializations.
  abbrev pub segwit_bytes : Transaction → List ℕ
  segwit_bytes tx = in_bytes tx ++ (out_bytes tx ++ (wit_bytes tx ++ lock_bytes tx))

  pub encode-segwit :
      (tx : Transaction)
      → uses_segwit_serialization tx ≡ true
      → (encode_transaction e debug tx).bytes ≡ version_bytes tx ++ (0 ∷ 1 ∷ segwit_bytes tx)
  unfolding encode_transaction
  encode-segwit tx h = rw h (
      ap (λ t. version_bytes tx ++ (0 ∷ 1 ∷ t))
        (append_assoc (in_bytes tx) (out_bytes tx ++ wit_bytes tx) (lock_bytes tx)
          ∙ ap (λ t. in_bytes tx ++ t)
              (append_assoc (out_bytes tx) (wit_bytes tx) (lock_bytes tx))))

  pub encode-legacy :
      (tx : Transaction)
      → uses_segwit_serialization tx ≡ false
      → (encode_transaction e debug tx).bytes
        ≡ version_bytes tx ++ (in_bytes tx ++ (out_bytes tx ++ lock_bytes tx))
  unfolding encode_transaction
  encode-legacy tx h =
      rw h (
        ap (λ t. version_bytes tx ++ t) (append_assoc (in_bytes tx) (out_bytes tx) (lock_bytes tx)))

  decode_segwit-encode :
      (tx : Transaction) (rest : Reader)
      → IsTransaction e tx
      → uses_segwit_serialization tx ≡ true
      → decode_segwit e debug tx.version (segwit_bytes tx ++ rest) ≡ ok (tx, rest)
  unfolding decode_segwit uses_segwit_serialization
  decode_segwit-encode tx rest v h =
      rw
        (
          append_assoc (in_bytes tx) (out_bytes tx ++ (wit_bytes tx ++ lock_bytes tx)) rest,
          append_assoc (out_bytes tx) (wit_bytes tx ++ lock_bytes tx) rest,
          append_assoc (wit_bytes tx) (lock_bytes tx) rest,
          read_inputs tx.input (out_bytes tx ++ (wit_bytes tx ++ (lock_bytes tx ++ rest))) v.input,
          outputs_exact.decode-encode tx.output (wit_bytes tx ++ (lock_bytes tx ++ rest)) v.output,
          decode_witnesses-encode_witnesses e debug tx.input (lock_bytes tx ++ rest) v.input.1,
          flagged tx.input h,
          lock_time-IsExact.decode-encode tx.lock_time rest v.lock_time,
        )
        refl

  -- A count of 0 is the marker.
  marker : (r : Reader) → (vec tx_in).consensus_decode_from_finite_reader (0 ∷ r) ≡ ok ([], r)
  unfolding emit_compact_size encode encode_items
  marker r = inputs_exact.decode-encode [] r (omega arith, tt)

  flag : (r : Reader) → u8.consensus_decode_from_finite_reader (1 ∷ r) ≡ ok (1, r)
  flag r = u8-IsExact.decode-encode 1 r (omega arith)

  pub decode-encode-segwit :
      (tx : Transaction) (rest : Reader)
      → IsTransaction e tx
      → uses_segwit_serialization tx ≡ true
      → decode_transaction e debug ((encode_transaction e debug tx).bytes ++ rest) ≡ ok (tx, rest)
  unfolding decode_transaction
  decode-encode-segwit tx rest v h =
      rw
        (
          encode-segwit tx h,
          append_assoc (version_bytes tx) (0 ∷ 1 ∷ segwit_bytes tx) rest,
          version_exact.decode-encode tx.version (0 ∷ 1 ∷ (segwit_bytes tx ++ rest)) v.version,
          marker (1 ∷ (segwit_bytes tx ++ rest)),
          flag (segwit_bytes tx ++ rest),
          decode_segwit-encode tx rest v h,
        )
        refl

  pub decode-encode-legacy :
      (tx : Transaction) (rest : Reader)
      → IsTransaction e tx
      → uses_segwit_serialization tx ≡ false
      → decode_transaction e debug ((encode_transaction e debug tx).bytes ++ rest) ≡ ok (tx, rest)
  unfolding decode_transaction uses_segwit_serialization
  decode-encode-legacy tx rest v h =
      let (no_witness, nonempty) = not_flagged tx.input h in
      rw
        (
          encode-legacy tx h,
          append_assoc (version_bytes tx) (in_bytes tx ++ (out_bytes tx ++ lock_bytes tx)) rest,
          append_assoc (in_bytes tx) (out_bytes tx ++ lock_bytes tx) rest,
          append_assoc (out_bytes tx) (lock_bytes tx) rest,
          version_exact.decode-encode tx.version
              (in_bytes tx ++ (out_bytes tx ++ (lock_bytes tx ++ rest))) v.version,
          read_inputs tx.input (out_bytes tx ++ (lock_bytes tx ++ rest)) v.input,
          bare-same e tx.input v.input.1 no_witness,
          nonempty,
          outputs_exact.decode-encode tx.output (lock_bytes tx ++ rest) v.output,
          lock_time-IsExact.decode-encode tx.lock_time rest v.lock_time,
        )
        refl

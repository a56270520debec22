-- ===== src/Blockdata/Transaction/Canonical.antt =====
-- Whatever decodes to a transaction is the encoding of that transaction.
use rust_riecoin.Base.{
  ℕ, suc, ◌^◌, ◌<◌, ◌≡◌, ◌≢◌, refl, sym, ap, ◌∙◌, subst, Bool, true, false, not, ◌&&◌, List, [],
  ◌∷◌, ◌++◌, ltb, ◌==◌, if◌then◌else◌, length, append_assoc, All, All-append_right, arith,
  Bool-cases, inl, inr,
}
use rust_riecoin.Base.Bytes.{IsByte, AreBytes}
use rust_riecoin.Internals.CompactSize.{encode}
use rust_riecoin.Primitives.Buffer.{Endian}
use rust_riecoin.Blockdata.Witness.{IsWitness}
use rust_riecoin.Primitives.Transaction.{
  TxIn, Transaction, any_witness, no_inputs, uses_segwit_serialization,
}
use rust_riecoin.Consensus.Result.{ok, >>=-eq-ok, ok-subst, guard-eq-ok, choice-eq-ok}
use rust_riecoin.Consensus.Io.{Reader, emit_compact_size}
use rust_riecoin.Consensus.Codec.Fixed.{u8, u32, u8-IsExact}
use rust_riecoin.Consensus.Vec.{encode_items, vec}
use rust_riecoin.Blockdata.Transaction.{
  tx_in, tx_out, lock_time, encode_witnesses, decode_witnesses, encode_transaction, decode_segwit,
  decode_transaction,
}
use rust_riecoin.Blockdata.Transaction.Parts.{lock_time-IsExact}
use rust_riecoin.Blockdata.Transaction.Witnesses.{
  IsBare, IsInput, decode_witnesses-eq-ok, length-bare,
}
use rust_riecoin.Blockdata.Transaction.RoundTrip.{
  IsTransaction, inputs_exact, outputs_exact, version_exact, in_bytes, out_bytes, lock_bytes,
  version_bytes, segwit_bytes, vec-bare, encode-segwit, encode-legacy,
}

passed :
    (xs : List TxIn)
    → (ltb 0 (length xs) && not (any_witness xs)) ≡ false
    → (if any_witness xs then true else no_inputs xs) ≡ true
unfolding any_witness
passed [] h = refl
passed (i ∷ xs) h = ground arith

behind : {r : List ℕ} (xs rest : List ℕ) → AreBytes r → r ≡ xs ++ rest → AreBytes rest
behind xs rest low split = All-append_right IsByte xs rest (subst AreBytes split low)

join :
    {r : List ℕ} {r₁ : List ℕ} (xs ys rest : List ℕ)
    → r ≡ xs ++ r₁
    → r₁ ≡ ys ++ rest
    → r ≡ (xs ++ ys) ++ rest
join xs ys rest p q = p ∙ ap (λ t. xs ++ t) q ∙ sym (append_assoc xs ys rest)

module _ (e : Endian) (debug : Bool) where
  decode_segwit-eq-ok :
      (version : ℕ) (r : Reader) (tx : Transaction) (rest : Reader)
      → AreBytes r
      → version < 2 ^ 32
      → decode_segwit e debug version r ≡ ok (tx, rest)
      → IsTransaction e tx
        × (uses_segwit_serialization tx ≡ true)
        × (tx.version ≡ version)
        × (r ≡ segwit_bytes e debug tx ++ rest)
  unfolding decode_segwit uses_segwit_serialization
  decode_segwit-eq-ok version r tx rest low fits h =
      let (p, e₁, f₁) = >>=-eq-ok ((vec tx_in).consensus_decode_from_finite_reader r) _ h in
      let (q, e₂, f₂) = >>=-eq-ok ((vec tx_out).consensus_decode_from_finite_reader p.1) _ f₁ in
      let (w, e₃, f₃) = >>=-eq-ok (decode_witnesses e debug p.0 q.1) _ f₂ in
      let (present, f₄) = guard-eq-ok (ltb 0 (length w.0) && not (any_witness w.0)) _ _ f₃ in
      let (t, e₅, f₅) = >>=-eq-ok (lock_time.consensus_decode_from_finite_reader w.1) _ f₄ in
      let (ins, s₁) = inputs_exact.encode-decode r p.0 p.1 low e₁ in
      let low₁ = behind ((vec tx_in).consensus_encode p.0).bytes p.1 low s₁ in
      let (outs, s₂) = outputs_exact.encode-decode p.1 q.0 q.1 low₁ e₂ in
      let low₂ = behind ((vec tx_out).consensus_encode q.0).bytes q.1 low₁ s₂ in
      let (all, stripped, s₃) = decode_witnesses-eq-ok e debug p.0 q.1 w.0 w.1 low₂ ins.1 e₃ in
      let low₃ = behind (encode_witnesses e debug w.0).bytes w.1 low₂ s₃ in
      let (locks, s₄) = lock_time-IsExact.encode-decode w.1 t.0 t.1 low₃ e₅ in
      let same : (vec tx_in).consensus_encode p.0 ≡ (vec tx_in).consensus_encode w.0 =
        sym (ap (vec tx_in).consensus_encode stripped) ∙ vec-bare w.0 in
      let few : length w.0 < 2 ^ 64 =
        subst (λ n. n < 2 ^ 64) (sym (ap length stripped) ∙ length-bare w.0) ins.0 in
      ok-subst
        (λ tx rest.
          IsTransaction e tx
          × (uses_segwit_serialization tx ≡ true)
          × (tx.version ≡ version)
          × (r ≡ segwit_bytes e debug tx ++ rest))
        f₅
        (
          record { version = fits; lock_time = locks; input = (few, all); output = outs },
          passed w.0 present,
          refl,
          join ((vec tx_in).consensus_encode w.0).bytes _ t.1 (s₁ ∙ ap (λ o. o.bytes ++ p.1) same) (
              join ((vec tx_out).consensus_encode q.0).bytes _ t.1 s₂
                (join (encode_witnesses e debug w.0).bytes _ t.1 s₃ s₄)),
        )

  abbrev IsDecoded : Reader → Transaction → Reader → Type 0
  IsDecoded r tx rest = IsTransaction e tx × (r ≡ (encode_transaction e debug tx).bytes ++ rest)

  -- An empty list of inputs is the marker byte.
  marker-eq :
      (bare_inputs : List TxIn) {r r₁ : Reader}
      → (length bare_inputs == 0) ≡ true
      → r ≡ ((vec tx_in).consensus_encode bare_inputs).bytes ++ r₁
      → r ≡ 0 ∷ r₁
  unfolding emit_compact_size encode encode_items
  marker-eq [] h split = split
  marker-eq (i ∷ xs) h split = absurd (not_empty h)
    where
      not_empty : (suc (length xs) == 0) ≢ true
      not_empty = λ g. ground arith

  segwit_joined :
      {r : Reader} (r₁ : Reader) {r₂ r₃ : Reader} {n : ℕ} (version : ℕ) (tx : Transaction)
      (rest : Reader)
      → r ≡ (u32.consensus_encode version).bytes ++ r₁
      → r₁ ≡ 0 ∷ r₂
      → r₂ ≡ n ∷ r₃
      → n ≡ 1
      → r₃ ≡ segwit_bytes e debug tx ++ rest
      → tx.version ≡ version
      → uses_segwit_serialization tx ≡ true
      → r ≡ (encode_transaction e debug tx).bytes ++ rest
  segwit_joined r₁ version tx rest s₁ s₂ s₃ one s₄ same flag =
      join (version_bytes tx) (0 ∷ 1 ∷ segwit_bytes e debug tx) rest
        (s₁ ∙ ap (λ v. (u32.consensus_encode v).bytes ++ r₁) (sym same)) (cc)
      ∙ ap (λ b. b ++ rest) (sym (encode-segwit e debug tx flag))

  bare-IsInput : (xs : List TxIn) → All IsBare xs → All (IsInput e) xs
  bare-IsInput [] h = h
  bare-IsInput (i ∷ xs) ((h, w), hs) = (
    (
      h,
      subst (IsWitness e) (sym w) (record {
        stack = [];
        laid_out = refl;
        few = omega arith;
        small = omega arith;
        bytes = tt;
      }),
    ),
    bare-IsInput xs hs,
  )

  no_witness : (xs : List TxIn) → All IsBare xs → any_witness xs ≡ false
  unfolding any_witness
  no_witness [] h = refl
  no_witness (i ∷ xs) ((_, w), hs) = rw w (no_witness xs hs)

  legacy_flag :
      (xs : List TxIn)
      → All IsBare xs
      → (length xs == 0) ≡ false
      → (if any_witness xs then true else no_inputs xs) ≡ false
  legacy_flag [] h k = cc
  legacy_flag (i ∷ xs) h k = rw (no_witness (i ∷ xs) h) refl

  legacy_joined :
      {r r₁ r₂ r₃ : Reader} (tx : Transaction) (rest : Reader)
      → r ≡ version_bytes tx ++ r₁
      → r₁ ≡ in_bytes tx ++ r₂
      → r₂ ≡ out_bytes tx ++ r₃
      → r₃ ≡ lock_bytes tx ++ rest
      → uses_segwit_serialization tx ≡ false
      → r ≡ (encode_transaction e debug tx).bytes ++ rest
  legacy_joined tx rest s₁ s₂ s₃ s₄ flag =
      join (version_bytes tx) (in_bytes tx ++ (out_bytes tx ++ lock_bytes tx)) rest s₁ (
        join (in_bytes tx) (out_bytes tx ++ lock_bytes tx) rest s₂
          (join (out_bytes tx) (lock_bytes tx) rest s₃ s₄))
      ∙ ap (λ b. b ++ rest) (sym (encode-legacy e debug tx flag))

  pub decode_transaction-eq-ok :
      (r : Reader) (tx : Transaction) (rest : Reader)
      → AreBytes r
      → decode_transaction e debug r ≡ ok (tx, rest)
      → IsDecoded r tx rest
  unfolding decode_transaction
  decode_transaction-eq-ok r tx rest low h =
      let (v, e₁, f₁) = >>=-eq-ok (u32.consensus_decode_from_finite_reader r) _ h in
      let (p, e₂, f₂) = >>=-eq-ok ((vec tx_in).consensus_decode_from_finite_reader v.1) _ f₁ in
      let (fits, s₁) = version_exact.encode-decode r v.0 v.1 low e₁ in
      let low₁ = behind (u32.consensus_encode v.0).bytes v.1 low s₁ in
      let (ins, s₂) = inputs_exact.encode-decode v.1 p.0 p.1 low₁ e₂ in
      let low₂ = behind ((vec tx_in).consensus_encode p.0).bytes p.1 low₁ s₂ in
      elim (Bool-cases (length p.0 == 0)) [
        | inl empty ↦
            (let (m, e₃, f₃) =
                >>=-eq-ok (u8.consensus_decode_from_finite_reader p.1) _ (rw empty at f₂) in
              let (one, f₄) = choice-eq-ok (m.0 == 1) _ _ f₃ in
              let (_, s₃) = u8-IsExact.encode-decode p.1 m.0 m.1 low₂ e₃ in
              let low₃ = behind (m.0 ∷ []) m.1 low₂ s₃ in
              let (valid, flag, same, s₄) = decode_segwit-eq-ok v.0 m.1 tx rest low₃ fits f₄ in
              (
                valid,
                segwit_joined v.1 v.0 tx rest s₁ (marker-eq p.0 empty s₂) s₃ (ground arith) s₄ same
                    flag,
              ))
        | inr some_input ↦
            (let (q, e₃, f₃) =
                >>=-eq-ok ((vec tx_out).consensus_decode_from_finite_reader p.1) _
                  (rw some_input at f₂) in
              let (t, e₄, f₄) =
                >>=-eq-ok (lock_time.consensus_decode_from_finite_reader q.1) _ f₃ in
              let (outs, s₃) = outputs_exact.encode-decode p.1 q.0 q.1 low₂ e₃ in
              let low₃ = behind ((vec tx_out).consensus_encode q.0).bytes q.1 low₂ s₃ in
              let (locks, s₄) = lock_time-IsExact.encode-decode q.1 t.0 t.1 low₃ e₄ in
              ok-subst
                (λ tx rest.
                  IsTransaction e tx × (r ≡ (encode_transaction e debug tx).bytes ++ rest))
                f₄
                (
                  record {
                    version = fits;
                    lock_time = locks;
                    input = (ins.0, bare-IsInput p.0 ins.1);
                    output = outs;
                  },
                  legacy_joined
                      (record { version = v.0; lock_time = t.0; input = p.0; output = q.0 }) t.1 s₁
                      s₂ s₃ s₄
                      (unfold uses_segwit_serialization in legacy_flag p.0 ins.1 some_input),
                ))
      ]

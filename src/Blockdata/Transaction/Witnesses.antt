-- ===== src/Blockdata/Transaction/Witnesses.antt =====
-- The witnesses of a transaction's inputs, which stand behind its outputs.
use rust_riecoin.Base.{
  ℕ, suc, ◌==◌, ◌≡◌, ◌≢◌, refl, sym, ap, ◌∙◌, subst, Bool, true, List, [], ◌∷◌, ◌++◌, map, length,
  append_assoc, length-append, All, All-append_right, arith,
}
use rust_riecoin.Base.Bytes.{IsByte, AreBytes}
use rust_riecoin.Primitives.Buffer.{Endian}
use rust_riecoin.Primitives.Witness.{Witness, new, is_empty}
use rust_riecoin.Primitives.Witness.Layout.{layout}
use rust_riecoin.Primitives.Transaction.{TxIn}
use rust_riecoin.Consensus.Result.{ok, panic, >>=-eq-ok, >>=-ne-panic, ok-subst}
use rust_riecoin.Consensus.Io.{Reader, ◌⊕◌}
use rust_riecoin.Consensus.Codec.{IsExact}
use rust_riecoin.Consensus.Vec.{encode_items}
use rust_riecoin.Blockdata.Witness.{witness, IsWitness}
use rust_riecoin.Blockdata.Witness.Exact.{witness-IsExact}
use rust_riecoin.Blockdata.Transaction.{tx_in, encode_witnesses, decode_witnesses}
use rust_riecoin.Blockdata.Transaction.Parts.{IsTxIn, bare}

abbrev pub IsBare : TxIn → Type 0
IsBare i = IsTxIn i × (i.witness ≡ new)

abbrev pub IsInput : Endian → TxIn → Type 0
IsInput e i = IsTxIn i × IsWitness e i.witness

module _ (e : Endian) (debug : Bool) where
  exact : IsExact (witness e debug) (IsWitness e)
  exact = witness-IsExact e debug

  pub encode_witnesses-counts :
      (xs : List TxIn)
      → All (IsInput e) xs
      → (encode_witnesses e debug xs).len ≡ length (encode_witnesses e debug xs).bytes
  unfolding encode_witnesses
  encode_witnesses-counts [] h = refl
  encode_witnesses-counts (i ∷ xs) ((_, h), hs) = omega (
    arith,
    exact.counts i.witness h,
    encode_witnesses-counts xs hs,
    length-append ((witness e debug).consensus_encode i.witness).bytes
        (encode_witnesses e debug xs).bytes,
  )

  pub decode_witnesses-encode_witnesses :
      (xs : List TxIn) (rest : Reader)
      → All (IsInput e) xs
      → decode_witnesses e debug (map bare xs) ((encode_witnesses e debug xs).bytes ++ rest)
        ≡ ok (xs, rest)
  unfolding encode_witnesses decode_witnesses
  decode_witnesses-encode_witnesses [] rest h = refl
  decode_witnesses-encode_witnesses (i ∷ xs) rest ((_, h), hs) = rw (
    append_assoc,
    exact.decode-encode i.witness ((encode_witnesses e debug xs).bytes ++ rest) h,
    decode_witnesses-encode_witnesses xs rest hs,
  )

  pub decode_witnesses-eq-ok :
      (xs : List TxIn) (r : Reader) (ys : List TxIn) (rest : Reader)
      → AreBytes r
      → All IsBare xs
      → decode_witnesses e debug xs r ≡ ok (ys, rest)
      → All (IsInput e) ys × (map bare ys ≡ xs) × (r ≡ (encode_witnesses e debug ys).bytes ++ rest)
  unfolding encode_witnesses decode_witnesses
  decode_witnesses-eq-ok [] r ys rest low h g = ground arith
  decode_witnesses-eq-ok (i ∷ xs) r ys rest low ((valid, no_witness), hs) g =
      let (p, e₁, f₁) = >>=-eq-ok ((witness e debug).consensus_decode_from_finite_reader r) _ g in
      let (q, e₂, f₂) = >>=-eq-ok (decode_witnesses e debug xs p.1) _ f₁ in
      let (laid, split) = exact.encode-decode r p.0 p.1 low e₁ in
      let low₁ =
        All-append_right IsByte ((witness e debug).consensus_encode p.0).bytes p.1
          (subst AreBytes split low) in
      let (all, stripped, split₁) = decode_witnesses-eq-ok xs p.1 q.0 q.1 low₁ hs e₂ in
      ok-subst
        (λ ys rest.
          All (IsInput e) ys
          × (map bare ys ≡ i ∷ xs)
          × (r ≡ (encode_witnesses e debug ys).bytes ++ rest))
        f₂
        (
          ((valid, laid), all),
          (λ k. record i { witness = sym no_witness k } ∷ stripped k),
          rw append_assoc (cc),
        )

  pub decode_witnesses-ne-panic :
      (xs : List TxIn) (r : Reader) → decode_witnesses e debug xs r ≢ panic
  unfolding decode_witnesses
  decode_witnesses-ne-panic [] r = λ h. cc
  decode_witnesses-ne-panic (i ∷ xs) r =
      >>=-ne-panic ((witness e debug).consensus_decode_from_finite_reader r) _
        (exact.never_panics r)
        (λ p e₁.
          >>=-ne-panic (decode_witnesses e debug xs p.1) _ (decode_witnesses-ne-panic xs p.1)
            (λ q e₂ h. cc))

-- The encoding of an input does not tell its witness.
pub encode_items-bare : (xs : List TxIn) → encode_items tx_in (map bare xs) ≡ encode_items tx_in xs
unfolding encode_items
encode_items-bare [] = refl
encode_items-bare (i ∷ xs) = ap (λ o. tx_in.consensus_encode i ⊕ o) (encode_items-bare xs)

pub length-bare : (xs : List TxIn) → length (map bare xs) ≡ length xs
length-bare [] = refl
length-bare (i ∷ xs) = ap suc (length-bare xs)

module _ (e : Endian) where
  layout_of_none : (xs : List (List ℕ)) → is_empty (layout e xs) ≡ true → layout e xs ≡ new
  layout_of_none [] h = refl
  layout_of_none (x ∷ xs) h = absurd (not_empty h)
    where
      not_empty : (suc (length xs) == 0) ≢ true
      not_empty = λ g. ground arith

  -- A witness with no elements is the one that `Witness::new` makes.
  pub no_elements : (w : Witness) → IsWitness e w → is_empty w ≡ true → w ≡ new
  no_elements w v h = v.laid_out ∙ layout_of_none v.stack (rw v.laid_out at h)

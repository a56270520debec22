-- ===== src/Blockdata/Witness/Exact.antt =====
-- The laws of `Encodable` and `Decodable` for `Witness`.
use rust_riecoin.Base.{
  ℕ, ◌+◌, ◌≤◌, ◌≡◌, refl, sym, ap, subst, Bool, some, List, [], ◌∷◌, ◌++◌, length, arith,
  length-append,
}
use rust_riecoin.Internals.CompactSize.{encode}
use rust_riecoin.Primitives.Buffer.{Endian}
use rust_riecoin.Primitives.Witness.{Witness}
use rust_riecoin.Primitives.Witness.Layout.{item, elements, layout, IsIndexable}
use rust_riecoin.Primitives.Witness.Reading.{to_vec-layout}
use rust_riecoin.Consensus.Result.{>>=-eq-ok, >>=-ne-panic, ok-subst}
use rust_riecoin.Consensus.Io.{emit_compact_size}
use rust_riecoin.Consensus.Codec.{IsExact}
use rust_riecoin.Consensus.Vec.{max_vec_size, consensus_encode_with_size}
use rust_riecoin.Blockdata.Witness.{encode_stack, consensus_encode, witness, IsWitness, or_nothing}
use rust_riecoin.Blockdata.Witness.Stack.{
  read_witness, read_witness-elements, read_witness-eq-ok, read_witness-ne-panic,
}
use rust_riecoin.Blockdata.Witness.Decode.{consensus_decode-read_witness}

module _ (e : Endian) where
  encode_stack-bytes : (xs : List (List ℕ)) → (encode_stack e xs).bytes ≡ elements xs
  unfolding encode_stack consensus_encode_with_size emit_compact_size
  encode_stack-bytes [] = refl
  encode_stack-bytes (x ∷ xs) = ap (λ t. item x ++ t) (encode_stack-bytes xs)

  encode_stack-len : (xs : List (List ℕ)) → (encode_stack e xs).len ≡ length (elements xs)
  unfolding encode_stack consensus_encode_with_size emit_compact_size
  encode_stack-len [] = refl
  encode_stack-len (x ∷ xs) = omega (
    arith,
    encode_stack-len xs,
    length-append (item x) (elements xs),
    length-append (encode (length x)) x,
  )

  -- On the layout of a stack the encoder writes the count and the elements, and returns their size.
  pub consensus_encode-layout :
      (debug : Bool) (xs : List (List ℕ))
      → IsIndexable xs
      → consensus_encode e debug (layout e xs)
        ≡ some (record {
          bytes = encode (length xs) ++ elements xs;
          len = length (encode (length xs)) + length (elements xs);
        })
  unfolding consensus_encode emit_compact_size
  consensus_encode-layout debug xs fits = rw (to_vec-layout e debug xs fits) (λ i. some (record {
    bytes = encode (length xs) ++ encode_stack-bytes xs i;
    len = length (encode (length xs)) + encode_stack-len xs i;
  }))

  small_fits : (xs : List (List ℕ)) → length (elements xs) ≤ max_vec_size → IsIndexable xs
  small_fits xs h = omega arith

  module _ (debug : Bool) where
    abbrev written : Witness → List ℕ
    written w = ((witness e debug).consensus_encode w).bytes

    pub written-layout :
        (xs : List (List ℕ))
        → length (elements xs) ≤ max_vec_size
        → written (layout e xs) ≡ encode (length xs) ++ elements xs
    written-layout xs h =
        ap (λ o. (or_nothing e o).bytes) (consensus_encode-layout debug xs (omega arith))

    -- A witness that is the layout of a stack of at most 4,000,000 elements and as many encoded
    -- bytes is read back from its encoding; the count returned is that of the bytes written; what
    -- decodes to a witness is its encoding; the decoder never panics.
    pub witness-IsExact : IsExact (witness e debug) (IsWitness e)
    witness-IsExact = record {
      counts = λ w v. rw v.laid_out (
          subst (λ o. (or_nothing e o).len ≡ length (or_nothing e o).bytes)
            (sym (consensus_encode-layout debug v.stack (small_fits v.stack v.small)))
            (sym (length-append (encode (length v.stack)) (elements v.stack))));
      decode-encode = λ w rest v. rw (
        v.laid_out,
        written-layout v.stack v.small,
        consensus_decode-read_witness,
        read_witness-elements v.stack rest v.few v.small,
      );
      encode-decode = λ r w rest low h.
          let (q, e₁, f₁) = >>=-eq-ok (read_witness r) _ (rw consensus_decode-read_witness at h) in
          let (few, small, bytes, split) = read_witness-eq-ok r q.0 q.1 low e₁ in
          ok-subst (λ w rest. IsWitness e w × (r ≡ written w ++ rest)) f₁
            (
              record { stack = q.0; laid_out = refl; few = few; small = small; bytes = bytes },
              rw (written-layout q.0 small) split,
            );
      never_panics = λ r.
          rw consensus_decode-read_witness
            (>>=-ne-panic (read_witness r) _ (read_witness-ne-panic r) (λ q e₁ h. cc));
    }

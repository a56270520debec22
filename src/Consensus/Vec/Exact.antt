-- ===== src/Consensus/Vec/Exact.antt =====
-- The laws of `Encodable` and `Decodable` for sequences.
use rust_riecoin.Base.{
  ℕ, zero, suc, ◌*◌, ◌<◌, ◌^◌, ◌≡◌, ◌≢◌, refl, ap, subst, List, [], ◌∷◌, ◌++◌, length, arith,
  append_assoc, length-append, All, All-append_left, All-append_right,
}
use rust_riecoin.Base.Bytes.{IsByte, AreBytes}
use rust_riecoin.Internals.CompactSize.{encode}
use rust_riecoin.Consensus.Result.{ok, panic, >>=-eq-ok, >>=-ne-panic, ok-subst}
use rust_riecoin.Consensus.Io.{Reader, emit_compact_size, read_compact_size}
use rust_riecoin.Consensus.Io.Laws.{
  read_compact_size-encode, read_compact_size-eq-ok, read_compact_size-ne-panic, read_exact-append,
  read_exact-eq-ok, read_exact-ne-panic,
}
use rust_riecoin.Consensus.Codec.{Codec, IsExact}
use rust_riecoin.Consensus.Vec.{consensus_encode_with_size, bytes, encode_items, decode_items, vec}
use rust_riecoin.Consensus.Vec.Chunks.{read_bytes-read_exact}

-- A length is a `usize`, and the elements are valid.
abbrev pub IsVec : {A : Type 0} → (A → Type 0) → List A → Type 0
IsVec P xs = (length xs < 2 ^ 64) × All P xs

abbrev pub IsBytes : List ℕ → Type 0
IsBytes = IsVec IsByte

bytes-decode-encode :
    (v rest : List ℕ)
    → IsBytes v
    → bytes.consensus_decode_from_finite_reader ((bytes.consensus_encode v).bytes ++ rest)
      ≡ ok (v, rest)
unfolding consensus_encode_with_size emit_compact_size
bytes-decode-encode v rest (h, _) =
    rw
      (
        append_assoc,
        read_compact_size-encode (length v) (v ++ rest) h,
        read_bytes-read_exact (length v) (128 * 1024) (v ++ rest) (omega arith),
      )
      (read_exact-append (length v) v rest refl)

bytes-encode-decode :
    (r : Reader) (v : List ℕ) (rest : Reader)
    → AreBytes r
    → bytes.consensus_decode_from_finite_reader r ≡ ok (v, rest)
    → IsBytes v × (r ≡ (bytes.consensus_encode v).bytes ++ rest)
unfolding consensus_encode_with_size emit_compact_size
bytes-encode-decode r v rest low e =
    let (p, e₁, e₂) = >>=-eq-ok (read_compact_size r) _ e in
    let (split, fits) = read_compact_size-eq-ok r low e₁ in
    let low₁ = All-append_right IsByte (encode p.0) p.1 (subst AreBytes split low) in
    let e₃ = rw (read_bytes-read_exact p.0 (128 * 1024) p.1 (omega arith)) at e₂ in
    let (split₂, size) = read_exact-eq-ok p.0 p.1 e₃ in
    let low₂ = All-append_left IsByte v rest (subst AreBytes split₂ low₁) in
    ((rw size fits, low₂), rw append_assoc (cc))

-- A byte vector of length below 2^64 is read back from its encoding through the chunked reader;
-- the count returned is that of the bytes written; what decodes to it is its encoding; the decoder
-- never panics.
pub bytes-IsExact : IsExact bytes IsBytes
bytes-IsExact = record {
  counts = λ v h.
      unfold consensus_encode_with_size emit_compact_size in
      omega (arith, length-append (encode (length v)) v);
  decode-encode = bytes-decode-encode;
  encode-decode = bytes-encode-decode;
  never_panics = λ r. >>=-ne-panic (read_compact_size r) _ (read_compact_size-ne-panic r) (λ p e.
      rw (read_bytes-read_exact p.0 (128 * 1024) p.1 (omega arith)) (read_exact-ne-panic p.0 p.1));
}

module _ {A : Type 0} {c : Codec A} {P : A → Type 0} (exact : IsExact c P) where
  pub encode_items-counts :
      (xs : List A) → All P xs → (encode_items c xs).len ≡ length (encode_items c xs).bytes
  unfolding encode_items
  encode_items-counts [] h = refl
  encode_items-counts (x ∷ xs) (p, h) = omega (
    arith,
    exact.counts x p,
    encode_items-counts xs h,
    length-append (c.consensus_encode x).bytes (encode_items c xs).bytes,
  )

  pub decode_items-encode_items :
      (xs : List A) (rest : Reader)
      → All P xs
      → decode_items c (length xs) ((encode_items c xs).bytes ++ rest) ≡ ok (xs, rest)
  unfolding encode_items decode_items
  decode_items-encode_items [] rest h = refl
  decode_items-encode_items (x ∷ xs) rest (p, h) = rw (
    append_assoc,
    exact.decode-encode x ((encode_items c xs).bytes ++ rest) p,
    decode_items-encode_items xs rest h,
  )

  pub encode_items-decode_items :
      (n : ℕ) (r : Reader) (xs : List A) (rest : Reader)
      → AreBytes r
      → decode_items c n r ≡ ok (xs, rest)
      → (length xs ≡ n) × All P xs × (r ≡ (encode_items c xs).bytes ++ rest)
  unfolding encode_items decode_items
  encode_items-decode_items zero r xs rest low e = ground arith
  encode_items-decode_items (suc n) r xs rest low e =
      let (p, e₁, e₂) = >>=-eq-ok (c.consensus_decode_from_finite_reader r) _ e in
      let (q, e₃, e₄) = >>=-eq-ok (decode_items c n p.1) _ e₂ in
      let (valid, split) = exact.encode-decode r p.0 p.1 low e₁ in
      let low₁ =
        All-append_right IsByte (c.consensus_encode p.0).bytes p.1 (subst AreBytes split low) in
      let (size, all, split₁) = encode_items-decode_items n p.1 q.0 q.1 low₁ e₃ in
      ok-subst (λ xs rest. (length xs ≡ suc n) × All P xs × (r ≡ (encode_items c xs).bytes ++ rest))
        e₄ (ap suc size, (valid, all), rw append_assoc (cc))

  pub decode_items-ne-panic : (n : ℕ) (r : Reader) → decode_items c n r ≢ panic
  unfolding decode_items
  decode_items-ne-panic zero r = λ p. cc
  decode_items-ne-panic (suc n) r =
      >>=-ne-panic (c.consensus_decode_from_finite_reader r) _ (exact.never_panics r)
        (λ p e. >>=-ne-panic (decode_items c n p.1) _ (decode_items-ne-panic n p.1) (λ q e' h. cc))

  vec-encode-decode :
      (r : Reader) (xs : List A) (rest : Reader)
      → AreBytes r
      → (vec c).consensus_decode_from_finite_reader r ≡ ok (xs, rest)
      → IsVec P xs × (r ≡ ((vec c).consensus_encode xs).bytes ++ rest)
  unfolding emit_compact_size
  vec-encode-decode r xs rest low e =
      let (p, e₁, e₂) = >>=-eq-ok (read_compact_size r) _ e in
      let (split, fits) = read_compact_size-eq-ok r low e₁ in
      let low₁ = All-append_right IsByte (encode p.0) p.1 (subst AreBytes split low) in
      let (size, all, split₁) = encode_items-decode_items p.0 p.1 xs rest low₁ e₂ in
      ((rw size fits, all), rw append_assoc (cc))

  -- If a codec has the laws of IsExact for a predicate, then so has the codec of sequences of such
  -- values, for sequences of less than 2^64 elements that satisfy it.
  pub vec-IsExact : IsExact (vec c) (IsVec P)
  vec-IsExact = record {
    counts = λ xs h.
        unfold emit_compact_size in
        omega (
          arith,
          encode_items-counts xs h.1,
          length-append (encode (length xs)) (encode_items c xs).bytes,
        );
    decode-encode = λ xs rest h.
        unfold emit_compact_size in
        rw
          (
            append_assoc,
            read_compact_size-encode (length xs) ((encode_items c xs).bytes ++ rest) h.0,
          )
          (decode_items-encode_items xs rest h.1);
    encode-decode = vec-encode-decode;
    never_panics = λ r.
        >>=-ne-panic (read_compact_size r) _ (read_compact_size-ne-panic r)
          (λ p e. decode_items-ne-panic p.0 p.1);
  }

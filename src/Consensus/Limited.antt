-- ===== src/Consensus/Limited.antt =====
-- `Decodable::consensus_decode` of bitcoin/src/consensus/encode.rs, as the trait provides it: the reader
-- is limited by `Read::take` of io/src/lib.rs.
use rust_riecoin.Base.{
  ℕ, ◌-◌, ◌≤◌, ◌≡◌, refl, sym, subst, ap, ◌∙◌, arith, List, [], ◌∷◌, zero, suc, ◌++◌, length, take,
  drop, take-append-drop, length-take, length-append, append_assoc, All-append_left,
}
use rust_riecoin.Base.Bytes.{IsByte, AreBytes}
use rust_riecoin.Consensus.Result.{Result, ok, ◌>>=◌, >>=-eq-ok, >>=-ne-panic, ok-subst}
use rust_riecoin.Consensus.Io.{Reader}
use rust_riecoin.Consensus.Codec.{Codec, IsExact}
use rust_riecoin.Consensus.Vec.{max_vec_size}

-- `reader.take(limit)`: at most `limit` bytes are seen; what was not read of them is left, with all that
-- is behind.
unfoldable pub take_limited :
    {A : Type 0} → ℕ → (Reader → Result (A × Reader)) → Reader → Result (A × Reader)
take_limited limit decode r = do (a, rest) ← decode (take limit r); ok (a, rest ++ drop limit r)

unfoldable pub consensus_decode : {A : Type 0} → Codec A → Reader → Result (A × Reader)
unfolding take_limited
consensus_decode c = take_limited max_vec_size c.consensus_decode_from_finite_reader

-- A codec whose values are read with `consensus_decode`.
abbrev pub limited : {A : Type 0} → Codec A → Codec A
limited c = record {
  consensus_encode = c.consensus_encode;
  consensus_decode_from_finite_reader = consensus_decode c;
}

take-past :
    (n : ℕ) (xs zs : List ℕ) → length xs ≤ n → take n (xs ++ zs) ≡ xs ++ take (n - length xs) zs
take-past n [] zs h = let all : n - 0 ≡ n = omega arith in rw all refl
take-past zero (x ∷ xs) zs h = absurd (omega arith)
take-past (suc n) (x ∷ xs) zs h =
    let less : suc n - suc (length xs) ≡ n - length xs = omega arith in
    rw less (ap (λ t. x ∷ t) (take-past n xs zs (omega arith)))

drop-past : (n : ℕ) (xs zs : List ℕ) → length xs ≤ n → drop n (xs ++ zs) ≡ drop (n - length xs) zs
drop-past n [] zs h = let all : n - 0 ≡ n = omega arith in rw all refl
drop-past zero (x ∷ xs) zs h = absurd (omega arith)
drop-past (suc n) (x ∷ xs) zs h =
    let less : suc n - suc (length xs) ≡ n - length xs = omega arith in
    rw less (drop-past n xs zs (omega arith))

module _ {A : Type 0} (c : Codec A) where
  consensus_decode-eq-ok :
      (r : Reader) {a : A} {rest : Reader}
      → consensus_decode c r ≡ ok (a, rest)
      → (left : Reader) × (c.consensus_decode_from_finite_reader (take max_vec_size r)
          ≡ ok (a, left))
        × (rest ≡ left ++ drop max_vec_size r)
  unfolding consensus_decode take_limited
  consensus_decode-eq-ok r e =
      let (x, e₁, e₂) =
        >>=-eq-ok (c.consensus_decode_from_finite_reader (take max_vec_size r)) _ e in
      ok-subst
        (λ a rest.
          (left : Reader) × (c.consensus_decode_from_finite_reader (take max_vec_size r)
            ≡ ok (a, left))
          × (rest ≡ left ++ drop max_vec_size r))
        e₂ (x.1, e₁, refl)

module _ {A : Type 0} {c : Codec A} {P : A → Type 0} (exact : IsExact c P) where
  -- The limited reader can be used for the values whose encoding is within the limit, and only for them.
  pub limited-IsExact :
      IsExact (limited c) (λ a. P a × (length (c.consensus_encode a).bytes ≤ max_vec_size))
  limited-IsExact = record {
    counts = λ a h. exact.counts a h.0;
    decode-encode = λ a rest h.
        let bs = (c.consensus_encode a).bytes in
        let left = max_vec_size - length bs in
        unfold consensus_decode take_limited in
        rw
          (
            take-past max_vec_size bs rest h.1,
            drop-past max_vec_size bs rest h.1,
            exact.decode-encode a (take left rest) h.0,
            take-append-drop left rest,
          )
          refl;
    encode-decode = λ r a rest low e.
        let bs = (c.consensus_encode a).bytes in
        let (left, decoded, same) = consensus_decode-eq-ok c r e in
        let whole = take-append-drop max_vec_size r in
        let low' =
          All-append_left IsByte (take max_vec_size r) (drop max_vec_size r)
            (subst AreBytes (sym whole) low) in
        let (valid, split) = exact.encode-decode (take max_vec_size r) a left low' decoded in
        let size = ap length split in
        let counted = length-append bs left in
        let most = length-take max_vec_size r in
        (
          (valid, omega (arith, size, counted, most)),
          sym whole
              ∙ ap (λ t. t ++ drop max_vec_size r) split
              ∙ append_assoc bs left (drop max_vec_size r)
              ∙ ap (λ t. bs ++ t) (sym same),
        );
    never_panics = λ r.
        unfold consensus_decode take_limited in
        >>=-ne-panic (c.consensus_decode_from_finite_reader (take max_vec_size r)) _
          (exact.never_panics (take max_vec_size r)) (λ x e h. cc);
  }

  -- Where no valid value is beyond the limit, the laws are those without it.
  pub limited-IsExact_within :
      ((a : A) → P a → length (c.consensus_encode a).bytes ≤ max_vec_size) → IsExact (limited c) P
  limited-IsExact_within within = record {
    counts = λ a h. exact.counts a h;
    decode-encode = λ a rest h. limited-IsExact.decode-encode a rest (h, within a h);
    encode-decode = λ r a rest low e.
        let (valid, split) = limited-IsExact.encode-decode r a rest low e in (valid.0, split);
    never_panics = limited-IsExact.never_panics;
  }

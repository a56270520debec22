-- ===== src/Consensus/Codec/Pair.antt =====
-- Types that write their fields one after the other: the laws of the fields give those of the whole.
use rust_riecoin.Base.{
  ◌≡◌, sym, ◌∙◌, subst, ◌++◌, append_assoc, length-append, arith, All-append_right,
}
use rust_riecoin.Base.Bytes.{IsByte, AreBytes}
use rust_riecoin.Consensus.Result.{
  Result, ok, ◌>>=◌, >>=-eq-ok, >>=-ne-panic, ok-subst, >>=_assoc, >>=_congr,
}
use rust_riecoin.Consensus.Io.{Reader, ◌⊕◌}
use rust_riecoin.Consensus.Codec.{Codec, IsExact}

module _ {A B : Type 0} where
  -- One value behind another.
  abbrev pub pair : Codec A → Codec B → Codec (A × B)
  pair c d = record {
    consensus_encode = λ p. c.consensus_encode p.0 ⊕ d.consensus_encode p.1;
    consensus_decode_from_finite_reader = λ r. do
      (a, r₁) ← c.consensus_decode_from_finite_reader r
      (b, r₂) ← d.consensus_decode_from_finite_reader r₁
      ok ((a, b), r₂);
  }

  pub pair-IsExact :
      {c : Codec A} {d : Codec B} {P : A → Type 0} {Q : B → Type 0}
      → IsExact c P
      → IsExact d Q
      → IsExact (pair c d) (λ p. P p.0 × Q p.1)
  pair-IsExact {c} {d} {P} {Q} exact_c exact_d = record {
    counts = λ p h. omega (
      arith,
      exact_c.counts p.0 h.0,
      exact_d.counts p.1 h.1,
      length-append (c.consensus_encode p.0).bytes (d.consensus_encode p.1).bytes,
    );
    decode-encode = λ p rest h. rw (
      append_assoc,
      exact_c.decode-encode p.0 ((d.consensus_encode p.1).bytes ++ rest) h.0,
      exact_d.decode-encode p.1 rest h.1,
    );
    encode-decode = λ r p rest low e.
        let (x, e₁, e₂) = >>=-eq-ok (c.consensus_decode_from_finite_reader r) _ e in
        let (y, e₃, e₄) = >>=-eq-ok (d.consensus_decode_from_finite_reader x.1) _ e₂ in
        let (valid, split) = exact_c.encode-decode r x.0 x.1 low e₁ in
        let low₁ =
          All-append_right IsByte (c.consensus_encode x.0).bytes x.1 (subst AreBytes split low) in
        let (valid₁, split₁) = exact_d.encode-decode x.1 y.0 y.1 low₁ e₃ in
        ok-subst (λ p rest. (P p.0 × Q p.1) × (r ≡ ((pair c d).consensus_encode p).bytes ++ rest))
          e₄ ((valid, valid₁), rw append_assoc (cc));
    never_panics = λ r.
        >>=-ne-panic (c.consensus_decode_from_finite_reader r) _ (exact_c.never_panics r) (λ x e.
          >>=-ne-panic (d.consensus_decode_from_finite_reader x.1) _ (exact_d.never_panics x.1)
            (λ y e' h. cc));
  }

  -- Two fields and a record of them.
  abbrev pub read_fields :
      {C : Type 0} → Codec A → Codec B → (A → B → C) → Reader → Result (C × Reader)
  read_fields c d f r = do
    (a, r₁) ← c.consensus_decode_from_finite_reader r
    (b, r₂) ← d.consensus_decode_from_finite_reader r₁
    ok (f a b, r₂)

  abbrev pub read_pair :
      {C : Type 0} → Codec A → Codec B → (A → B → C) → Reader → Result (C × Reader)
  read_pair c d f r = do
    (p, r') ← (pair c d).consensus_decode_from_finite_reader r
    ok (f p.0 p.1, r')

  pub read_fields-read_pair :
      {C : Type 0} (c : Codec A) (d : Codec B) (f : A → B → C) (r : Reader)
      → read_fields c d f r ≡ read_pair c d f r
  read_fields-read_pair c d f r = sym (
      >>=_assoc (c.consensus_decode_from_finite_reader r) _ _
      ∙ >>=_congr (c.consensus_decode_from_finite_reader r)
          (λ x e. >>=_assoc (d.consensus_decode_from_finite_reader x.1) _ _))

  -- A field in front of others that are read as one.
  pub read_more :
      {C : Type 0} (c : Codec A) (d : Codec B) (f : A → B → C)
      (next : A → Reader → Result (C × Reader))
      → ((a : A) (r : Reader)
          → next a r ≡ (d.consensus_decode_from_finite_reader r >>= λ p. ok (f a p.0, p.1)))
      → (r : Reader)
      → (c.consensus_decode_from_finite_reader r >>= λ x. next x.0 x.1)
        ≡ ((pair c d).consensus_decode_from_finite_reader r >>= λ p. ok (f p.0.0 p.0.1, p.1))
  read_more c d f next others r =
      >>=_congr (c.consensus_decode_from_finite_reader r) (λ x e. others x.0 x.1)
      ∙ read_fields-read_pair c d f r

-- A codec that is another one through a bijection of their values.
module _ {A B : Type 0} {c : Codec A} {P : A → Type 0} (exact : IsExact c P) where
  pub IsExact-through :
      (d : Codec B) (f : A → B) (g : B → A)
      → ((b : B) → f (g b) ≡ b)
      → ((a : A) → g (f a) ≡ a)
      → ((b : B) → d.consensus_encode b ≡ c.consensus_encode (g b))
      → ((r : Reader)
          → d.consensus_decode_from_finite_reader r
            ≡ (c.consensus_decode_from_finite_reader r >>= λ p. ok (f p.0, p.1)))
      → IsExact d (λ b. P (g b))
  IsExact-through d f g fg gf enc dec = record {
    counts = λ b h. rw enc (exact.counts (g b) h);
    decode-encode = λ b rest h. rw (enc, dec, exact.decode-encode (g b) rest h, fg);
    encode-decode = λ r b rest low e.
        let (x, e₁, e₂) = >>=-eq-ok (c.consensus_decode_from_finite_reader r) _ (rw dec at e) in
        let (valid, split) = exact.encode-decode r x.0 x.1 low e₁ in
        ok-subst (λ b rest. P (g b) × (r ≡ (d.consensus_encode b).bytes ++ rest)) e₂
          (rw gf valid, rw (enc, gf) split);
    never_panics = λ r. rw dec (
        >>=-ne-panic (c.consensus_decode_from_finite_reader r) _ (exact.never_panics r)
          (λ x e h. cc));
  }

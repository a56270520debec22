-- ===== src/Consensus/Serialize/Laws.antt =====
-- What `IsExact` gives for whole byte strings.
use rust_riecoin.Base.{
  ℕ, suc, subst, Bool-cases, inl, inr, ==_iff, ◌+◌, ◌-◌, ◌≡◌, ◌↔◌, refl, ap, ◌∙◌, sym, Bool, true,
  false, not, ◌&&◌, some, List, [], ◌∷◌, ◌++◌, ◌==◌, if◌then◌else◌, length, length-append,
  append-nil, arith,
}
use rust_riecoin.Base.Bytes.{AreBytes}
use rust_riecoin.Consensus.Result.{Result, ok, err, panic, ok-injective, >>=-eq-ok}
use rust_riecoin.Consensus.Codec.{Codec, IsExact}
use rust_riecoin.Consensus.Serialize.{
  Deserialized, value, unconsumed, serialize, deserialize_partial, consumed_all, deserialize,
}

same_count : (debug : Bool) (n : ℕ) → (debug && not (n == n)) ≡ false
same_count true n = ground arith
same_count false n = refl

taken : (m k : ℕ) → ((m + k - k) == (m + k)) ≡ (k == 0)
taken m k = ground arith

not_zero : (n : ℕ) → (suc n == 0) ≡ false
not_zero n = ground arith

some-injective : {A : Type 0} {a b : A} → some a ≡ some b → a ≡ b
some-injective h = cc

all_taken :
    (xs rest : List ℕ) {input : List ℕ}
    → input ≡ xs ++ rest
    → length input - length rest ≡ length input
    → input ≡ xs
all_taken xs [] split h = split ∙ append-nil xs
all_taken xs (x ∷ rest) {input} split h = absurd (bad)
  where
    bad : ⊥
    bad = omega (arith, ap length split, length-append xs (x ∷ rest))

module _ {A : Type 0} {c : Codec A} {P : A → Type 0} (exact : IsExact c P) where
  abbrev bytes_of : A → List ℕ
  bytes_of a = (c.consensus_encode a).bytes

  -- The assertion on the number of bytes written holds.
  serialize-total : (debug : Bool) (a : A) → P a → serialize c debug a ≡ some (bytes_of a)
  unfolding serialize
  serialize-total debug a h = rw (exact.counts a h, same_count debug (length (bytes_of a))) refl

  deserialize-append :
      (a : A) (rest : List ℕ)
      → P a
      → deserialize c (bytes_of a ++ rest) ≡ (if length rest == 0 then value a else unconsumed)
  unfolding deserialize deserialize_partial consumed_all
  deserialize-append a rest h =
      rw
        (
          exact.decode-encode a rest h,
          length-append (bytes_of a) rest,
          taken (length (bytes_of a)) (length rest),
        )
        refl

  consumed_all-eq-value :
      (size : ℕ) (m : Result (A × ℕ)) {a : A} → consumed_all c size m ≡ value a → m ≡ ok (a, size)
  unfolding consumed_all
  consumed_all-eq-value size (ok p) {a} h = elim (Bool-cases (p.1 == size)) [
    | inl t ↦
        let same : ◌≡◌ {A = Deserialized A} (value p.0) (value a) = rw t at h in
        let head : p.0 ≡ a = cc in
        let size_same : p.1 ≡ size = (==_iff p.1 size).0 t in λ i. ok (head i, size_same i)
    | inr t ↦ let same : ◌≡◌ {A = Deserialized A} unconsumed (value a) = rw t at h in cc
  ]
  consumed_all-eq-value size (err e) h = cc
  consumed_all-eq-value size panic h = cc

  -- For a codec with the laws of IsExact: on bytes, deserialize gives a value exactly where the
  -- value is valid and serialize gives these bytes for it.
  pub deserialize-serialize :
      (debug : Bool) (input : List ℕ) (a : A)
      → AreBytes input
      → (deserialize c input ≡ value a) ↔ (P a × (serialize c debug a ≡ some input))
  unfolding deserialize_partial
  deserialize-serialize debug input a low = (
    λ h.
        let whole_input : deserialize_partial c input ≡ ok (a, length input) =
          unfold deserialize in
          consumed_all-eq-value (length input) (deserialize_partial c input) h in
        let (p, e₁, e₂) = >>=-eq-ok (c.consensus_decode_from_finite_reader input) _ whole_input in
        let (valid, split) = exact.encode-decode input p.0 p.1 low e₁ in
        let (same, whole) = ok-injective e₂ in
        (
          subst P same valid,
          serialize-total debug a (subst P same valid)
              ∙ ap some (sym (all_taken (bytes_of p.0) p.1 split whole ∙ ap bytes_of same)),
        ),
    λ h.
        let written : bytes_of a ≡ input =
          some-injective (sym (serialize-total debug a h.0) ∙ h.1) in
        subst (λ b. deserialize c b ≡ value a) (append-nil (bytes_of a) ∙ written)
          (deserialize-append a [] h.0),
  )

  -- For a codec with the laws of IsExact: the encoding of a valid value with at least one byte
  -- behind it is refused as unconsumed.
  pub deserialize-trailing :
      (a : A) (x : ℕ) (rest : List ℕ) → P a → deserialize c (bytes_of a ++ (x ∷ rest)) ≡ unconsumed
  deserialize-trailing a x rest h =
      deserialize-append a (x ∷ rest) h ∙ rw (not_zero (length rest)) refl

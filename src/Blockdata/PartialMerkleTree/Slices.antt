-- ===== src/Blockdata/PartialMerkleTree/Slices.antt =====
-- Slices of the lists that the partial Merkle trees of bitcoin/src/merkle_tree/block.rs are made of.
use rust_riecoin.Base.{
  ℕ, zero, suc, ◌+◌, ◌<◌, ◌≤◌, ◌≡◌, refl, sym, ap, arith, Bool-cases, inl, inr, Bool, true, false,
  ◌||◌, none, some, List, [], ◌∷◌, ◌++◌, length, get_elem?, take, drop, ltb,
}
use rust_riecoin.Blockdata.PartialMerkleTree.{scan_matches}

module _ {A : Type 0} where
  -- The element at an index, or the default.
  abbrev pub get_or : A → List A → ℕ → A
  get_or d xs i = elim (get_elem? xs i) [ none ↦ d | some x ↦ x ]

  abbrev pub slice : ℕ → ℕ → List A → List A
  slice p count xs = take count (drop p xs)

  pub get_elem?-below :
      (d : A) (xs : List A) (p : ℕ) → p < length xs → get_elem? xs p ≡ some (get_or d xs p)
  get_elem?-below d [] p h = absurd (omega arith)
  get_elem?-below d (x ∷ xs) zero h = refl
  get_elem?-below d (x ∷ xs) (suc p) h = get_elem?-below d xs p (omega arith)

  drop-below :
      (d : A) (xs : List A) (p : ℕ) → p < length xs → drop p xs ≡ get_or d xs p ∷ drop (suc p) xs
  drop-below d [] p h = absurd (omega arith)
  drop-below d (x ∷ xs) zero h = refl
  drop-below d (x ∷ xs) (suc p) h = drop-below d xs p (omega arith)

  drop-beyond : (xs : List A) (p : ℕ) → length xs ≤ p → drop p xs ≡ []
  drop-beyond [] zero h = refl
  drop-beyond [] (suc p) h = refl
  drop-beyond (x ∷ xs) zero h = absurd (omega arith)
  drop-beyond (x ∷ xs) (suc p) h = drop-beyond xs p (omega arith)

  pub slice-below :
      (d : A) (xs : List A) (p count : ℕ)
      → p < length xs
      → slice p (suc count) xs ≡ get_or d xs p ∷ slice (suc p) count xs
  slice-below d xs p count h = ap (take (suc count)) (drop-below d xs p h)

  pub slice-beyond : (xs : List A) (p count : ℕ) → length xs ≤ p → slice p count xs ≡ []
  slice-beyond xs p zero h = refl
  slice-beyond xs p (suc count) h = ap (take (suc count)) (drop-beyond xs p h)

  pub slice-all : (xs : List A) (count : ℕ) → length xs ≤ count → slice 0 count xs ≡ xs
  slice-all [] zero h = refl
  slice-all [] (suc count) h = refl
  slice-all (x ∷ xs) zero h = absurd (omega arith)
  slice-all (x ∷ xs) (suc count) h = ap (λ t. x ∷ t) (slice-all xs count (omega arith))

-- Whether a flag is set.
abbrev pub any : List Bool → Bool
any [] = false
any (b ∷ bs) = b || any bs

or_false : (b : Bool) → (b || false) ≡ b
or_false true = refl
or_false false = refl

or_assoc : (a b c : Bool) → ((a || b) || c) ≡ (a || (b || c))
or_assoc true b c = refl
or_assoc false b c = refl

pub scan_matches-any :
    (ms : List Bool) (count p : ℕ) (acc : Bool)
    → scan_matches ms (length ms) count p acc ≡ some (acc || any (slice p count ms))
unfolding scan_matches
scan_matches-any ms zero p acc = ap some (sym (or_false acc))
scan_matches-any ms (suc count) p acc = elim (Bool-cases (ltb p (length ms))) [
  | inl below ↦
      let inside : p < length ms = ground arith in
      rw
        (
          below,
          get_elem?-below false ms p inside,
          slice-below false ms p count inside,
          scan_matches-any ms count (suc p) (acc || get_or false ms p),
        )
        (ap some (or_assoc acc (get_or false ms p) (any (slice (suc p) count ms))))
  | inr beyond ↦
      rw (beyond, slice-beyond ms p (suc count) (ground arith)) (ap some (sym (or_false acc)))
]

pub any-split :
    (ms : List Bool) (a b p : ℕ)
    → any (slice p (a + b) ms) ≡ (any (slice p a ms) || any (slice (p + a) b ms))
any-split ms zero b p =
    let e : 0 + b ≡ b = omega arith in let f : p + 0 ≡ p = omega arith in rw (e, f) refl
any-split ms (suc a) b p =
    let e : suc a + b ≡ suc (a + b) = omega arith in
    let f : p + suc a ≡ suc p + a = omega arith in
    elim (Bool-cases (ltb p (length ms))) [
      | inl below ↦
          let inside : p < length ms = ground arith in
          rw
            (
              e,
              f,
              slice-below false ms p (a + b) inside,
              slice-below false ms p a inside,
              any-split ms a b (suc p),
            )
            (sym (or_assoc (get_or false ms p) (any (slice (suc p) a ms)) _))
      | inr beyond ↦
          let outside : length ms ≤ p = ground arith in
          rw
            (
              slice-beyond ms p (suc a + b) outside,
              slice-beyond ms p (suc a) outside,
              slice-beyond ms (p + suc a) b (omega arith),
            )
            refl
    ]

module _ {A : Type 0} where
  -- The elements whose flag is set, with their indexes, counted from `i`.
  abbrev pub matching : ℕ → List A → List Bool → List (A × ℕ)
  matching i [] ms = []
  matching i (x ∷ xs) [] = []
  matching i (x ∷ xs) (true ∷ ms) = (x, i) ∷ matching (suc i) xs ms
  matching i (x ∷ xs) (false ∷ ms) = matching (suc i) xs ms

  pub matching-none :
      (i : ℕ) (xs : List A) (ms : List Bool) → any ms ≡ false → matching i xs ms ≡ []
  matching-none i [] ms h = refl
  matching-none i (x ∷ xs) [] h = refl
  matching-none i (x ∷ xs) (true ∷ ms) h = absurd (let f : ⊥ = cc in f)
  matching-none i (x ∷ xs) (false ∷ ms) h = matching-none (suc i) xs ms h

  matching-cons :
      (i : ℕ) (x : A) (m : Bool) (xs xs' : List A) (ms ms' : List Bool) (rest : List (A × ℕ))
      → matching (suc i) xs ms ≡ matching (suc i) xs' ms' ++ rest
      → matching i (x ∷ xs) (m ∷ ms) ≡ matching i (x ∷ xs') (m ∷ ms') ++ rest
  matching-cons i x true xs xs' ms ms' rest e = ap (λ t. (x, i) ∷ t) e
  matching-cons i x false xs xs' ms ms' rest e = e

  pub matching-split :
      (d : A) (xs : List A) (ms : List Bool) (a b p : ℕ)
      → length xs ≡ length ms
      → matching p (slice p (a + b) xs) (slice p (a + b) ms)
        ≡ matching p (slice p a xs) (slice p a ms)
          ++ matching (p + a) (slice (p + a) b xs) (slice (p + a) b ms)
  matching-split d xs ms zero b p l =
      let e : 0 + b ≡ b = omega arith in let f : p + 0 ≡ p = omega arith in rw (e, f) refl
  matching-split d xs ms (suc a) b p l =
      let e : suc a + b ≡ suc (a + b) = omega arith in
      let f : p + suc a ≡ suc p + a = omega arith in
      elim (Bool-cases (ltb p (length xs))) [
        | inl below ↦
            let in_xs : p < length xs = ground arith in
            let in_ms : p < length ms = ground arith in
            rw
              (
                e,
                f,
                slice-below d xs p (a + b) in_xs,
                slice-below false ms p (a + b) in_ms,
                slice-below d xs p a in_xs,
                slice-below false ms p a in_ms,
              )
              (matching-cons p (get_or d xs p) (get_or false ms p) _ (slice (suc p) a xs) _
                (slice (suc p) a ms) _ (matching-split d xs ms a b (suc p) l))
        | inr beyond ↦
            let outside : length xs ≤ p = ground arith in
            rw
              (
                slice-beyond xs p (suc a + b) outside,
                slice-beyond xs p (suc a) outside,
                slice-beyond xs (p + suc a) b (omega arith),
              )
              refl
      ]

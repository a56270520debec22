-- ===== src/Blockdata/Witness/Stack.antt =====
-- Reading the elements of a witness one by one into a list: the description of what the decoder reads.
use rust_riecoin.Base.{
  ℕ, zero, suc, ◌+◌, ◌*◌, ◌^◌, ◌<◌, ◌≤◌, ◌≡◌, ◌≢◌, refl, ap, subst, List, [], ◌∷◌, ◌++◌, ltb,
  le→ltb, length, arith, length-append, append_assoc, All, All-append_left, All-append_right,
  Bool-cases, inl, inr, if◌then◌else◌,
}
use rust_riecoin.Base.Bytes.{IsByte, AreBytes}
use rust_riecoin.Internals.CompactSize.{encoded_size, encode}
use rust_riecoin.Primitives.Witness.Layout.{item, elements, length-item}
use rust_riecoin.Consensus.Result.{
  Result, ok, err, panic, ◌>>=◌, >>=-eq-ok, >>=-ne-panic, ok-subst, oversized_vector_allocation,
}
use rust_riecoin.Consensus.Io.{Reader, read_compact_size, read_exact}
use rust_riecoin.Consensus.Io.Laws.{
  read_compact_size-encode, read_compact_size-eq-ok, read_compact_size-ne-panic, read_exact-append,
  read_exact-eq-ok, read_exact-ne-panic,
}
use rust_riecoin.Consensus.Vec.{max_vec_size}
use rust_riecoin.Blockdata.Witness.{required_len}

-- `k` elements, of which the first goes to `cursor` of a buffer with `space` bytes for cursors.
unfoldable pub read_stack : ℕ → ℕ → ℕ → Reader → Result (List (List ℕ) × Reader)
read_stack zero space cursor r = ok ([], r)
read_stack (suc k) space cursor r = do
  (element_size, r₁) ← read_compact_size r
  required ← required_len space cursor element_size
  (bytes, r₂) ← read_exact element_size r₁
  (rest, r₃) ← read_stack k space (cursor + encoded_size element_size + element_size) r₂
  ok (bytes ∷ rest, r₃)

pub required_len-ok :
    (space cursor n : ℕ)
    → cursor + n + encoded_size n ≤ max_vec_size + space
    → space < 2 ^ 63
    → required_len space cursor n ≡ ok (cursor + n + encoded_size n)
unfolding required_len
required_len-ok space cursor n h s = ground arith

pub required_len-eq-ok :
    (space cursor n : ℕ) {m : ℕ}
    → required_len space cursor n ≡ ok m
    → (m ≡ cursor + n + encoded_size n) × (m ≤ max_vec_size + space)
unfolding required_len
required_len-eq-ok space cursor n h = ground arith

required_len-ne-panic : (space cursor n : ℕ) → required_len space cursor n ≢ panic
unfolding required_len
required_len-ne-panic space cursor n = ground arith

pub length-read_stack :
    (k space cursor : ℕ) (r : Reader) {xs : List (List ℕ)} {rest : Reader}
    → read_stack k space cursor r ≡ ok (xs, rest)
    → length xs ≡ k
unfolding read_stack
length-read_stack zero space cursor r e = ground arith
length-read_stack (suc k) space cursor r e =
    let (n, e₁, f₁) = >>=-eq-ok (read_compact_size r) _ e in
    let (m, e₂, f₂) = >>=-eq-ok (required_len space cursor n.0) _ f₁ in
    let (b, e₃, f₃) = >>=-eq-ok (read_exact n.0 n.1) _ f₂ in
    let next = cursor + encoded_size n.0 + n.0 in
    let (t, e₄, f₄) = >>=-eq-ok (read_stack k space next b.1) _ f₃ in
    ok-subst (λ xs rest. length xs ≡ suc k) f₄ (ap suc (length-read_stack k space next b.1 e₄))

module _ (space : ℕ) (bounded : space < 2 ^ 63) where
  pub read_stack-elements :
      (xs : List (List ℕ)) (cursor : ℕ) (rest : Reader)
      → cursor + length (elements xs) ≤ max_vec_size + space
      → read_stack (length xs) space cursor (elements xs ++ rest) ≡ ok (xs, rest)
  unfolding read_stack
  read_stack-elements [] cursor rest h = refl
  read_stack-elements (x ∷ xs) cursor rest h =
      let size = length-append (item x) (elements xs) in
      rw (
        append_assoc (item x),
        append_assoc (encode (length x)),
        read_compact_size-encode (length x) (x ++ (elements xs ++ rest))
            (omega (arith, length-item x)),
        required_len-ok space cursor (length x) (omega (arith, length-item x)) bounded,
        read_exact-append (length x) x (elements xs ++ rest) refl,
        read_stack-elements xs (cursor + encoded_size (length x) + length x) rest
            (omega (arith, length-item x)),
      )

  pub read_stack-eq-ok :
      (k cursor : ℕ) (r : Reader) (xs : List (List ℕ)) (rest : Reader)
      → AreBytes r
      → cursor ≤ max_vec_size + space
      → read_stack k space cursor r ≡ ok (xs, rest)
      → (length xs ≡ k)
        × (cursor + length (elements xs) ≤ max_vec_size + space)
        × All AreBytes xs
        × (r ≡ elements xs ++ rest)
  unfolding read_stack
  read_stack-eq-ok zero cursor r xs rest low h e = ground arith
  read_stack-eq-ok (suc k) cursor r xs rest low h e =
      let (n, e₁, f₁) = >>=-eq-ok (read_compact_size r) _ e in
      let (m, e₂, f₂) = >>=-eq-ok (required_len space cursor n.0) _ f₁ in
      let (b, e₃, f₃) = >>=-eq-ok (read_exact n.0 n.1) _ f₂ in
      let (t, e₄, f₄) = >>=-eq-ok (read_stack k space (cursor + encoded_size n.0 + n.0) b.1) _ f₃ in
      let (split, fits) = read_compact_size-eq-ok r low e₁ in
      let (req, small) = required_len-eq-ok space cursor n.0 e₂ in
      let low₁ = All-append_right IsByte (encode n.0) n.1 (subst AreBytes split low) in
      let (split₁, size) = read_exact-eq-ok n.0 n.1 e₃ in
      let low₂ = subst AreBytes split₁ low₁ in
      let (count, room, bytes, split₂) =
        read_stack-eq-ok k _ b.1 t.0 t.1 (All-append_right IsByte b.0 b.1 low₂) (omega arith) e₄ in
      ok-subst
        (λ xs rest.
          (length xs ≡ suc k)
          × (cursor + length (elements xs) ≤ max_vec_size + space)
          × All AreBytes xs
          × (r ≡ elements xs ++ rest))
        f₄
        (
          ap suc count,
          omega (
            arith,
            ap encoded_size size,
            length-item b.0,
            length-append (item b.0) (elements t.0),
          ),
          (All-append_left IsByte b.0 b.1 low₂, bytes),
          simp append_assoc (cc),
        )

  pub read_stack-ne-panic : (k cursor : ℕ) (r : Reader) → read_stack k space cursor r ≢ panic
  unfolding read_stack
  read_stack-ne-panic zero cursor r = λ p. cc
  read_stack-ne-panic (suc k) cursor r =
      >>=-ne-panic (read_compact_size r) _ (read_compact_size-ne-panic r) λ n e₁.
        >>=-ne-panic (required_len space cursor n.0) _ (required_len-ne-panic space cursor n.0)
          λ m e₂. >>=-ne-panic (read_exact n.0 n.1) _ (read_exact-ne-panic n.0 n.1) λ b e₃.
            >>=-ne-panic (read_stack k space (cursor + encoded_size n.0 + n.0) b.1) _
              (read_stack-ne-panic k (cursor + encoded_size n.0 + n.0) b.1) (λ t e₄ h. cc)

-- The count and the elements of a witness.
unfoldable pub read_witness : Reader → Result (List (List ℕ) × Reader)
read_witness r = do
  (n, r₁) ← read_compact_size r
  let stack = read_stack n (n * 4) (n * 4) r₁
  if ltb max_vec_size n then err (oversized_vector_allocation n max_vec_size) else stack

pub read_witness-elements :
    (xs : List (List ℕ)) (rest : Reader)
    → length xs ≤ max_vec_size
    → length (elements xs) ≤ max_vec_size
    → read_witness ((encode (length xs) ++ elements xs) ++ rest) ≡ ok (xs, rest)
unfolding read_witness
read_witness-elements xs rest few small = rw (
  append_assoc,
  read_compact_size-encode (length xs) (elements xs ++ rest) (omega arith),
  le→ltb max_vec_size (length xs) few,
  read_stack-elements (length xs * 4) (omega arith) xs (length xs * 4) rest (omega arith),
)

pub read_witness-eq-ok :
    (r : Reader) (xs : List (List ℕ)) (rest : Reader)
    → AreBytes r
    → read_witness r ≡ ok (xs, rest)
    → (length xs ≤ max_vec_size)
      × (length (elements xs) ≤ max_vec_size)
      × All AreBytes xs
      × (r ≡ (encode (length xs) ++ elements xs) ++ rest)
unfolding read_witness
read_witness-eq-ok r xs rest low h =
    let (p, e₁, f₁) = >>=-eq-ok (read_compact_size r) _ h in
    let (split, fits) = read_compact_size-eq-ok r low e₁ in
    let low₁ = All-append_right IsByte (encode p.0) p.1 (subst AreBytes split low) in
    elim (Bool-cases (ltb max_vec_size p.0)) [
      | inl over ↦ cc (rw over at f₁)
      | inr within ↦
          let few : p.0 ≤ max_vec_size = ground arith in
          let (count, room, bytes, split₁) =
            read_stack-eq-ok (p.0 * 4) (omega arith) p.0 (p.0 * 4) p.1 xs rest low₁ (omega arith)
              (rw within at f₁) in
          (omega arith, omega arith, bytes, simp append_assoc (cc))
    ]

pub read_witness-ne-panic : (r : Reader) → read_witness r ≢ panic
unfolding read_witness
read_witness-ne-panic r =
    >>=-ne-panic (read_compact_size r) _ (read_compact_size-ne-panic r) λ p e₁.
      elim (Bool-cases (ltb max_vec_size p.0)) [
        | inl over ↦ rw over (λ h. cc)
        | inr within ↦ rw within (read_stack-ne-panic (p.0 * 4) (ground arith) p.0 (p.0 * 4) p.1)
      ]

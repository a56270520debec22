-- ===== src/Primitives/Witness/Layout.antt =====
-- The buffer of a witness as a function of its stack: the description that the operations are held
-- against.
use rust_riecoin.Base.{
  ℕ, ◌+◌, ◌*◌, ◌^◌, ◌<◌, ◌≡◌, refl, ap, List, [], ◌∷◌, ◌++◌, length, arith, length-append,
  append_assoc,
}
use rust_riecoin.Internals.CompactSize.{encoded_size, encode}
use rust_riecoin.Internals.CompactSize.RoundTrip.{length-encode}
use rust_riecoin.Primitives.Buffer.{Endian, to_ne_bytes}
use rust_riecoin.Primitives.Buffer.Laws.{length-to_ne_bytes}
use rust_riecoin.Primitives.Witness.{Witness, content_size}

-- An element behind its compact size, and all of a stack.
abbrev pub item : List ℕ → List ℕ
item elem = encode (length elem) ++ elem

abbrev pub elements : List (List ℕ) → List ℕ
elements [] = []
elements (x ∷ xs) = item x ++ elements xs

-- The cursors, the first element being at `cursor`.
abbrev pub indices : Endian → ℕ → List (List ℕ) → List ℕ
indices e cursor [] = []
indices e cursor (x ∷ xs) = to_ne_bytes e 4 cursor ++ indices e (cursor + length (item x)) xs

abbrev pub layout : Endian → List (List ℕ) → Witness
layout e xs = record {
  content = elements xs ++ indices e 0 xs;
  witness_elements = length xs;
  indices_start = length (elements xs);
}

-- Every cursor fits a `u32`.
abbrev pub IsIndexable : List (List ℕ) → Type 0
IsIndexable xs = length (elements xs) < 2 ^ 32

pub length-item : (x : List ℕ) → length (item x) ≡ encoded_size (length x) + length x
length-item x = omega (arith, length-append (encode (length x)) x, length-encode (length x))

pub content_size-elements : (xs : List (List ℕ)) → content_size xs ≡ length (elements xs)
unfolding content_size
content_size-elements [] = refl
content_size-elements (x ∷ xs) =
    omega (arith, content_size-elements xs, length-item x, length-append (item x) (elements xs))

pub length-indices :
    (e : Endian) (cursor : ℕ) (xs : List (List ℕ)) → length (indices e cursor xs) ≡ length xs * 4
length-indices e cursor [] = omega arith
length-indices e cursor (x ∷ xs) = omega (
  arith,
  length-indices e (cursor + length (item x)) xs,
  length-to_ne_bytes e 4 cursor,
  length-append (to_ne_bytes e 4 cursor) (indices e (cursor + length (item x)) xs),
)

pub elements-append : (xs ys : List (List ℕ)) → elements (xs ++ ys) ≡ elements xs ++ elements ys
elements-append [] ys = refl
elements-append (x ∷ xs) ys = simp (elements-append xs ys, append_assoc)

pub indices-append :
    (e : Endian) (cursor : ℕ) (xs ys : List (List ℕ))
    → indices e cursor (xs ++ ys)
      ≡ indices e cursor xs ++ indices e (cursor + length (elements xs)) ys
indices-append e cursor [] ys = let h : cursor + 0 ≡ cursor = omega arith in rw h
indices-append e cursor (x ∷ xs) ys =
    let next = cursor + length (item x) in
    let h : next + length (elements xs) ≡ cursor + length (item x ++ elements xs) =
      omega (arith, length-append (item x) (elements xs)) in
    rw (← h, append_assoc) (ap (λ t. to_ne_bytes e 4 cursor ++ t) (indices-append e next xs ys))

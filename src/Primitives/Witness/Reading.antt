-- ===== src/Primitives/Witness/Reading.antt =====
-- `get`, `get_back`, `last`, the iterator and `size` read the stack back from its layout.
use native.Mathlib.Nat.{zero-add}
use rust_riecoin.Base.{
  ℕ, zero, suc, ◌+◌, ◌-◌, ◌^◌, ◌<◌, ◌≤◌, ◌≡◌, refl, ap, subst, Bool, none, some, List, [], ◌∷◌,
  ◌++◌, ltb, leb, if◌then◌else◌, length, get_elem?, arith, length-append, append_assoc, take-append,
  drop-append,
}
use rust_riecoin.Internals.CompactSize.{encoded_size, encode}
use rust_riecoin.Internals.CompactSize.RoundTrip.{decode_unchecked-encode}
use rust_riecoin.Primitives.Buffer.{Endian, decode_cursor}
use rust_riecoin.Primitives.Buffer.Laws.{decode_cursor_lem, decode_cursor-eq-none}
use rust_riecoin.Primitives.Witness.{element_at, get, get_back, iter, to_vec, size}
use rust_riecoin.Primitives.Witness.Layout.{
  item, elements, indices, layout, IsIndexable, content_size-elements, length-indices,
  elements-append, indices-append,
}

-- A stack cut at a place, or no element there.
data Cut (i : ℕ) (xs : List (List ℕ)) : Type 0 where
  inside :
      (front : List (List ℕ)) (x : List ℕ) (back : List (List ℕ))
      → xs ≡ front ++ (x ∷ back)
      → i ≡ length front
      → get_elem? xs i ≡ some x
      → Cut i xs
  outside : length xs ≤ i → get_elem? xs i ≡ none → Cut i xs

cut : (i : ℕ) (xs : List (List ℕ)) → Cut i xs
cut i [] = outside (omega arith) refl
cut zero (x ∷ xs) = inside [] x xs refl refl refl
cut (suc i) (x ∷ xs) = elim (cut i xs) [
  | inside front y back e h g ↦ inside (x ∷ front) y back (ap (λ t. x ∷ t) e) (ap suc h) g
  | outside h g ↦ outside (omega arith) g
]

module _ (e : Endian) where
  element_at_lem :
      (debug : Bool) (content a x c : List ℕ) (pos : ℕ)
      → content ≡ a ++ (item x ++ c)
      → pos ≡ length a
      → length x < 2 ^ 64
      → element_at e debug content pos ≡ some x
  unfolding element_at
  element_at_lem debug content a x c pos eq h fits =
      let inside : leb pos (length (a ++ (item x ++ c))) ≡ Bool.true =
        ground (arith, length-append a (item x ++ c)) in
      let room : leb (length x) (length (x ++ c)) ≡ Bool.true = ground (arith, length-append x c) in
      rw
        (
          eq,
          inside,
          drop-append pos a (item x ++ c) h,
          append_assoc,
          decode_unchecked-encode debug (length x) (x ++ c) fits,
          room,
        )
        (ap some (take-append (length x) x c refl))

  module _ (debug : Bool) (front : List (List ℕ)) (x : List ℕ) (back : List (List ℕ)) where
    abbrev whole : List (List ℕ)
    whole = front ++ (x ∷ back)

    length-whole :
        length (elements whole)
        ≡ length (elements front) + (length (encode (length x)) + length x) + length (elements back)
    length-whole = rw (elements-append front (x ∷ back)) (
        omega (
          arith,
          length-append (elements front) (item x ++ elements back),
          length-append (item x) (elements back),
          length-append (encode (length x)) x,
        ))

    -- The cursor of an element in the middle, and the element.
    cursor_in :
        IsIndexable whole
        → decode_cursor e (layout e whole).content (layout e whole).indices_start (length front)
          ≡ some (length (elements front))
    cursor_in fits =
        decode_cursor_lem e _ (elements whole ++ indices e 0 front)
          (indices e (0 + length (elements front) + length (item x)) back) _ _ _
          (rw (indices-append e 0 front (x ∷ back), zero-add (length (elements front)))
            (simp append_assoc))
          (omega
            (arith, length-append (elements whole) (indices e 0 front), length-indices e 0 front))
          (omega (arith, length-whole))

    element_in :
        IsIndexable whole
        → element_at e debug (layout e whole).content (length (elements front)) ≡ some x
    element_in fits =
        element_at_lem debug _ (elements front) x (elements back ++ indices e 0 whole) _
          (rw (elements-append front (x ∷ back)) (simp append_assoc)) refl
          (omega (arith, length-whole))

    get_in : IsIndexable whole → get e debug (layout e whole) (length front) ≡ some (some x)
    unfolding get
    get_in fits = rw (cursor_in fits, get, element_in fits)

  cursor_behind :
      (xs : List (List ℕ)) (i : ℕ)
      → length xs ≤ i
      → decode_cursor e (layout e xs).content (layout e xs).indices_start i ≡ none
  cursor_behind xs i h =
      decode_cursor-eq-none e _ _ _
        (omega (arith, length-append (elements xs) (indices e 0 xs), length-indices e 0 xs))

  get_behind :
      (debug : Bool) (xs : List (List ℕ)) (i : ℕ)
      → length xs ≤ i
      → get e debug (layout e xs) i ≡ some none
  unfolding get
  get_behind debug xs i h = rw (cursor_behind xs i h, get)

  -- On the layout of a stack whose elements take less than 2^32 bytes, get does not panic and
  -- returns the element at the index, or None behind the last.
  pub get-layout :
      (debug : Bool) (xs : List (List ℕ)) (i : ℕ)
      → IsIndexable xs
      → get e debug (layout e xs) i ≡ some (get_elem? xs i)
  get-layout debug xs i fits = elim (cut i xs) [
    | inside front x back eq h g ↦
        let fits' = subst IsIndexable eq fits in rw (g, eq, h) (get_in debug front x back fits')
    | outside h g ↦ rw (get_behind debug xs i h, g)
  ]

  -- On the layout of a stack whose elements take less than 2^32 bytes, get_back does not panic and
  -- returns the element at the index counted from the top, or None below the bottom.
  pub get_back-layout :
      (debug : Bool) (xs : List (List ℕ)) (i : ℕ)
      → IsIndexable xs
      → get_back e debug (layout e xs) i
        ≡ some (if ltb i (length xs) then get_elem? xs (length xs - 1 - i) else none)
  unfolding get_back
  get_back-layout debug xs i fits = ground (arith, get-layout debug xs (length xs - 1 - i) fits)

  -- From an element on, the iterator yields the rest of the stack.
  iter-layout :
      (fuel : ℕ) (debug : Bool) (front back : List (List ℕ))
      → length back < fuel
      → IsIndexable (front ++ back)
      → iter e fuel debug (layout e (front ++ back)) (length front) ≡ some back
  unfolding iter
  iter-layout zero debug front back h fits = absurd (omega arith)
  iter-layout (suc fuel) debug front [] h fits =
      rw (cursor_behind (front ++ []) (length front) (omega (arith, length-append front [])), iter)
  iter-layout (suc fuel) debug front (x ∷ back) h fits =
      let shift : front ++ (x ∷ back) ≡ (front ++ (x ∷ [])) ++ back = simp append_assoc in
      let next : length front + 1 ≡ length (front ++ (x ∷ [])) =
        omega (arith, length-append front (x ∷ [])) in
      let ih =
        iter-layout fuel debug (front ++ (x ∷ [])) back (omega arith)
          (subst IsIndexable shift fits) in
      let rest : iter e fuel debug (layout e (front ++ (x ∷ back))) (length front + 1) ≡ some back =
        rw (shift, next) ih in
      rw (cursor_in debug front x back fits, iter, element_in debug front x back fits, rest)

  length-le-content : (xs : List (List ℕ)) → length xs ≤ length (layout e xs).content
  length-le-content xs =
      omega (arith, length-append (elements xs) (indices e 0 xs), length-indices e 0 xs)

  -- On the layout of a stack whose elements take less than 2^32 bytes, the iterator ends without a
  -- panic and yields the stack.
  pub to_vec-layout :
      (debug : Bool) (xs : List (List ℕ)) → IsIndexable xs → to_vec e debug (layout e xs) ≡ some xs
  unfolding to_vec
  to_vec-layout debug xs fits =
      iter-layout (length (layout e xs).content + 1) debug [] xs
        (omega (arith, length-le-content xs)) fits

  -- On the layout of a stack whose elements take less than 2^32 bytes, size is the size of the
  -- count and of all elements with their compact sizes.
  pub size-layout :
      (debug : Bool) (xs : List (List ℕ))
      → IsIndexable xs
      → size e debug (layout e xs) ≡ some (encoded_size (length xs) + length (elements xs))
  unfolding size
  size-layout debug xs fits = rw (to_vec-layout debug xs fits, content_size-elements xs)

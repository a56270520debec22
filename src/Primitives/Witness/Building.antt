-- ===== src/Primitives/Witness/Building.antt =====
-- `from_slice` and `push_slice` build the layout of the stack.
use native.Mathlib.Nat.{zero-add}
use rust_riecoin.Base.{
  ℕ, zero, suc, ◌+◌, ◌*◌, ◌^◌, ◌<◌, ◌≡◌, refl, ap, ◌∙◌, Option, some, List, [], ◌∷◌, ◌++◌, length,
  replicate, arith, length-append, append_assoc, length-replicate,
}
use rust_riecoin.Internals.CompactSize.{encoded_size, encode}
use rust_riecoin.Internals.CompactSize.RoundTrip.{length-encode}
use rust_riecoin.Primitives.Buffer.{
  Endian, to_ne_bytes, encode_cursor, copy_from_slice, rotate_right_from,
}
use rust_riecoin.Primitives.Buffer.Laws.{
  copy_from_slice_lem, encode_cursor_lem, rotate_right_from_lem, length-to_ne_bytes,
}
use rust_riecoin.Primitives.Witness.{Witness, content_size, write_elements, from_slice, push_slice}
use rust_riecoin.Primitives.Witness.Layout.{
  item, elements, indices, layout, IsIndexable, length-item, content_size-elements, length-indices,
  elements-append, indices-append,
}

some_witness :
    {c c' : List ℕ} {n n' s s' : ℕ}
    → c ≡ c'
    → n ≡ n'
    → s ≡ s'
    → ◌≡◌ {A = Option Witness}
        (some (record { content = c; witness_elements = n; indices_start = s }))
        (some (record { content = c'; witness_elements = n'; indices_start = s' }))
some_witness p q r =
    λ i. some (record { content = p i; witness_elements = q i; indices_start = r i })

abbrev zeros : ℕ → List ℕ
zeros n = replicate n 0

length-zeros : (n : ℕ) → length (zeros n) ≡ n
length-zeros n = length-replicate n 0

zeros-add : (m n : ℕ) → zeros (m + n) ≡ zeros m ++ zeros n
zeros-add zero n = let h : 0 + n ≡ n = omega arith in rw h
zeros-add (suc m) n =
    let h : suc m + n ≡ suc (m + n) = omega arith in rw h (ap (λ t. 0 ∷ t) (zeros-add m n))

-- An element `x` is written at `cursor`, into two gaps of its sizes, and its cursor into a third.
module _ (e : Endian) (size i cursor : ℕ) (x done gap gap₁ back front gap₂ tail : List ℕ)
    (at_done : cursor ≡ length done) (gap_size : length gap ≡ length (encode (length x)))
    (gap₁_size : length gap₁ ≡ length x) (gap₂_size : length gap₂ ≡ 4)
    (at_gap₂ : size + i * 4 ≡ length done + length gap + length gap₁ + length back + length front)
    (fits : cursor < 2 ^ 32) where
  write_cursor :
      encode_cursor e (done ++ (gap ++ (gap₁ ++ (back ++ (front ++ (gap₂ ++ tail)))))) size i cursor
      ≡ some (done ++ (gap ++ (gap₁ ++ (back ++ (front ++ (to_ne_bytes e 4 cursor ++ tail))))))
  write_cursor =
      encode_cursor_lem e _ (done ++ (gap ++ (gap₁ ++ (back ++ front)))) gap₂ tail size i cursor
        (simp append_assoc)
        (omega (
          arith,
          length-append done (gap ++ (gap₁ ++ (back ++ front))),
          length-append gap (gap₁ ++ (back ++ front)),
          length-append gap₁ (back ++ front),
          length-append back front,
        ))
        gap₂_size fits
      ∙ simp append_assoc

  write_size :
      (behind : List ℕ)
      → copy_from_slice cursor (encode (length x)) (done ++ (gap ++ (gap₁ ++ behind)))
        ≡ some (done ++ (encode (length x) ++ (gap₁ ++ behind)))
  write_size behind =
      copy_from_slice_lem cursor (encode (length x)) done gap (gap₁ ++ behind) _ refl at_done
        gap_size

  write_bytes :
      (behind : List ℕ)
      → copy_from_slice
          (cursor + length (encode (length x)))
          x
          (done ++ (encode (length x) ++ (gap₁ ++ behind)))
        ≡ some (done ++ (encode (length x) ++ (x ++ behind)))
  write_bytes behind =
      copy_from_slice_lem _ x (done ++ encode (length x)) gap₁ behind _ (simp append_assoc)
        (omega (arith, length-append done (encode (length x)))) gap₁_size
      ∙ simp append_assoc

-- The buffer of `from_slice` before an element is written, in the pieces that are written over.
gaps :
    (x : List ℕ) (slice : List (List ℕ)) (done front : List ℕ)
    → done ++ (zeros (content_size (x ∷ slice)) ++ (front ++ zeros (length (x ∷ slice) * 4)))
      ≡ done
        ++ (zeros (encoded_size (length x))
            ++ (zeros (length x)
                ++ (zeros (content_size slice)
                    ++ (front ++ (zeros 4 ++ zeros (length slice * 4))))))
unfolding content_size
gaps x slice done front =
    let a : length x + encoded_size (length x) + content_size slice
        ≡ encoded_size (length x) + (length x + content_size slice) =
      omega arith in
    let b : suc (length slice) * 4 ≡ 4 + length slice * 4 = omega arith in
    rw (a, b, zeros-add (encoded_size (length x)), zeros-add (length x), zeros-add 4)
      (simp append_assoc)

module _ (e : Endian) where
  write_elements_lem :
      (size i cursor : ℕ) (slice : List (List ℕ)) (done front : List ℕ)
      → cursor ≡ length done
      → size ≡ cursor + content_size slice
      → length front ≡ i * 4
      → size < 2 ^ 32
      → write_elements e size i cursor slice
          (done ++ (zeros (content_size slice) ++ (front ++ zeros (length slice * 4))))
        ≡ some (done ++ (elements slice ++ (front ++ indices e cursor slice)))
  unfolding write_elements content_size
  write_elements_lem size i cursor [] done front h k f fits = refl
  write_elements_lem size i cursor (x ∷ slice) done front h k f fits =
      let n = length-encode (length x) in
      let gap = zeros (encoded_size (length x)) in
      let gap₁ = zeros (length x) in
      let back = zeros (content_size slice) in
      let tail = zeros (length slice * 4) in
      let cursor' = to_ne_bytes e 4 cursor in
      let behind = back ++ (front ++ (cursor' ++ tail)) in
      let gap_size : length gap ≡ length (encode (length x)) =
        omega (arith, length-zeros (encoded_size (length x))) in
      let at : size + i * 4 ≡ length done + length gap + length gap₁ + length back + length front =
        omega (
          arith,
          length-zeros (encoded_size (length x)),
          length-zeros (length x),
          length-zeros (content_size slice),
        ) in
      let next : cursor + length (encode (length x)) + length x ≡ cursor + length (item x) =
        omega (arith, length-append (encode (length x)) x) in
      let small : cursor < 2 ^ 32 = omega arith in
      rw
        (
          gaps x slice done front,
          write_cursor e size i cursor x done gap gap₁ back front (zeros 4) tail h gap_size
              (length-zeros (length x)) refl at small,
          write_size e size i cursor x done gap gap₁ back front (zeros 4) tail h gap_size
              (length-zeros (length x)) refl at small behind,
          write_bytes e size i cursor x done gap gap₁ back front (zeros 4) tail h gap_size
              (length-zeros (length x)) refl at small behind,
          next,
        )
        (simp append_assoc (
          simp append_assoc at (
            write_elements_lem size (i + 1) (cursor + length (item x)) slice (done ++ item x)
              (front ++ cursor') (omega (arith, length-append done (item x)))
              (omega (arith, length-item x))
              (omega (arith, length-append front cursor', length-to_ne_bytes e 4 cursor)) fits)))

  -- from_slice does not panic on a stack whose elements take less than 2^32 bytes, and builds its
  -- layout.
  pub from_slice-layout :
      (slice : List (List ℕ)) → IsIndexable slice → from_slice e slice ≡ some (layout e slice)
  unfolding from_slice
  from_slice-layout slice fits =
      let size = content_size-elements slice in
      rw (
        zeros-add (content_size slice) (length slice * 4),
        write_elements_lem (content_size slice) 0 0 slice [] [] refl (omega arith) refl
            (omega arith),
        size,
      )

  -- On the layout of a stack whose elements take less than 2^32 bytes, push_slice does not panic
  -- and gives the layout of the stack with the new element on top.
  pub push_slice-layout :
      (xs : List (List ℕ)) (x : List ℕ)
      → IsIndexable xs
      → push_slice e (layout e xs) x ≡ some (layout e (xs ++ (x ∷ [])))
  unfolding push_slice
  push_slice-layout xs x fits =
      let k = length (encode (length x)) + length x in
      let gap = zeros (length (encode (length x))) in
      let gap₁ = zeros (length x) in
      let back = indices e 0 xs in
      let start = length (elements xs) in
      let cursor' = to_ne_bytes e 4 start in
      let sum : k + 4 ≡ 4 + (length (encode (length x)) + length x) = omega arith in
      let split : (elements xs ++ back) ++ zeros (k + 4)
          ≡ elements xs ++ ((back ++ zeros 4) ++ (gap ++ gap₁)) =
        rw (sum, zeros-add 4, zeros-add (length (encode (length x)))) (simp append_assoc) in
      let at : start + k + length xs * 4 ≡ start + length gap + length gap₁ + length back + 0 =
        omega (
          arith,
          length-zeros (length (encode (length x))),
          length-zeros (length x),
          length-indices e 0 xs,
        ) in
      let gap_size = length-zeros (length (encode (length x))) in
      let gap₁_size = length-zeros (length x) in
      let rotated : rotate_right_from start k ((elements xs ++ back) ++ zeros (k + 4))
          ≡ some (elements xs ++ (gap ++ (gap₁ ++ (back ++ (zeros 4 ++ []))))) =
        rotate_right_from_lem start k (elements xs) (back ++ zeros 4) (gap ++ gap₁) _ split refl
          (omega (arith, length-append gap gap₁, gap_size, gap₁_size))
        ∙ simp append_assoc in
      rw
        (
          rotated,
          write_cursor e (start + k) (length xs) start x (elements xs) gap gap₁ back [] (zeros 4) []
              refl gap_size gap₁_size refl at fits,
          write_size e (start + k) (length xs) start x (elements xs) gap gap₁ back [] (zeros 4) []
              refl gap_size gap₁_size refl at fits (back ++ (cursor' ++ [])),
          write_bytes e (start + k) (length xs) start x (elements xs) gap gap₁ back [] (zeros 4) []
              refl gap_size gap₁_size refl at fits (back ++ (cursor' ++ [])),
          elements-append xs (x ∷ []),
          indices-append e 0 xs (x ∷ []),
        )
        (some_witness (rw (zero-add start) (simp append_assoc))
          (omega (arith, length-append xs (x ∷ [])))
          (omega (
            arith,
            length-append (elements xs) (item x ++ []),
            length-append (item x) [],
            length-append (encode (length x)) x,
          )))

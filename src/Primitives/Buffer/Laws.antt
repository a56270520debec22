-- ===== src/Primitives/Buffer/Laws.antt =====
-- Writes, rotations and cursors on a buffer that is given in pieces.
use mathlib.Core.List.{reverse, reverse_aux, reverse-reverse}
use rust_riecoin.Base.{
  ℕ, ◌+◌, ◌-◌, ◌*◌, ◌^◌, ◌<◌, ◌≡◌, sym, ◌∙◌, none, some, List, [], ◌∷◌, ◌++◌, lt→ltb, length, drop,
  arith, length-append, take-append, drop-append, append_assoc,
}
use rust_riecoin.Base.Bytes.{to_le_bytes, length-to_le_bytes, from_le_bytes-to_le_bytes}
use rust_riecoin.Primitives.Buffer.{
  copy_from_slice, rotate_right_from, rotate_left, Endian, little, big, to_ne_bytes, from_ne_bytes,
  encode_cursor, decode_cursor,
}

-- A write over the middle piece.
pub copy_from_slice_lem :
    (start : ℕ) (bs a b c buf : List ℕ)
    → buf ≡ a ++ (b ++ c)
    → start ≡ length a
    → length b ≡ length bs
    → copy_from_slice start bs buf ≡ some (a ++ (bs ++ c))
unfolding copy_from_slice
copy_from_slice_lem start bs a b c buf e h k =
    rw (e, take-append start a (b ++ c) h, behind)
      (ground (arith, length-append a (b ++ c), length-append b c))
  where
    behind : drop (start + length bs) (a ++ (b ++ c)) ≡ c
    behind = rw (← append_assoc a b c) (drop-append _ (a ++ b) c (omega (arith, length-append a b)))

length-reverse_aux : (xs ys : List ℕ) → length (reverse_aux xs ys) ≡ length xs + length ys
length-reverse_aux [] ys = omega arith
length-reverse_aux (x ∷ xs) ys = omega (arith, length-reverse_aux xs (x ∷ ys))

length-reverse : (xs : List ℕ) → length (reverse xs) ≡ length xs
length-reverse xs = omega (arith, length-reverse_aux xs [])

pub length-to_ne_bytes : (e : Endian) (k v : ℕ) → length (to_ne_bytes e k v) ≡ k
unfolding to_ne_bytes
length-to_ne_bytes little k v = length-to_le_bytes k v
length-to_ne_bytes big k v = length-reverse (to_le_bytes k v) ∙ length-to_le_bytes k v

from_ne_bytes-to_ne_bytes :
    (e : Endian) (k v : ℕ) → v < 256 ^ k → from_ne_bytes e (to_ne_bytes e k v) ≡ v
unfolding to_ne_bytes from_ne_bytes
from_ne_bytes-to_ne_bytes little k v h = from_le_bytes-to_le_bytes k v h
from_ne_bytes-to_ne_bytes big k v h = rw reverse-reverse (from_le_bytes-to_le_bytes k v h)

-- A cursor over four bytes of the middle piece.
pub encode_cursor_lem :
    (e : Endian) (bytes a b c : List ℕ) (start_of_indices index value : ℕ)
    → bytes ≡ a ++ (b ++ c)
    → start_of_indices + index * 4 ≡ length a
    → length b ≡ 4
    → value < 2 ^ 32
    → encode_cursor e bytes start_of_indices index value ≡ some (a ++ (to_ne_bytes e 4 value ++ c))
unfolding encode_cursor
encode_cursor_lem e bytes a b c start_of_indices index value eq h k fits =
    rw (lt→ltb value (2 ^ 32) fits) (
      copy_from_slice_lem (start_of_indices + index * 4) (to_ne_bytes e 4 value) a b c bytes eq h
        (omega (arith, length-to_ne_bytes e 4 value)))

pub decode_cursor_lem :
    (e : Endian) (bytes a c : List ℕ) (start_of_indices index value : ℕ)
    → bytes ≡ a ++ (to_ne_bytes e 4 value ++ c)
    → start_of_indices + index * 4 ≡ length a
    → value < 2 ^ 32
    → decode_cursor e bytes start_of_indices index ≡ some value
unfolding decode_cursor
decode_cursor_lem e bytes a c start_of_indices index value eq h fits =
    rw
      (
        eq,
        drop-append (start_of_indices + index * 4) a _ h,
        take-append 4 (to_ne_bytes e 4 value) c (sym (length-to_ne_bytes e 4 value)),
        from_ne_bytes-to_ne_bytes e 4 value fits,
      )
      (ground (
        arith,
        length-append a (to_ne_bytes e 4 value ++ c),
        length-append (to_ne_bytes e 4 value) c,
        length-to_ne_bytes e 4 value,
      ))

-- Behind the end there is no cursor.
pub decode_cursor-eq-none :
    (e : Endian) (bytes : List ℕ) (start_of_indices index : ℕ)
    → length bytes < start_of_indices + index * 4 + 4
    → decode_cursor e bytes start_of_indices index ≡ none
unfolding decode_cursor
decode_cursor-eq-none e bytes start_of_indices index h = ground arith

-- The last piece moves in front of the one before it.
pub rotate_right_from_lem :
    (start k : ℕ) (a b c buf : List ℕ)
    → buf ≡ a ++ (b ++ c)
    → start ≡ length a
    → k ≡ length c
    → rotate_right_from start k buf ≡ some (a ++ (c ++ b))
unfolding rotate_right_from
rotate_right_from_lem start k a b c buf e h size =
    let cut : length (b ++ c) - k ≡ length b = omega (arith, length-append b c) in
    rw
      (
        e,
        drop-append start a (b ++ c) h,
        take-append start a (b ++ c) h,
        drop-append (length (b ++ c) - k) b c cut,
        take-append (length (b ++ c) - k) b c cut,
      )
      (ground (arith, length-append a (b ++ c), length-append b c))

pub rotate_left_lem :
    (k : ℕ) (a b buf : List ℕ) → buf ≡ a ++ b → k ≡ length a → rotate_left k buf ≡ some (b ++ a)
unfolding rotate_left
rotate_left_lem k a b buf e h =
    rw (e, drop-append k a b h, take-append k a b h) (ground (arith, length-append a b))

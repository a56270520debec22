-- ===== src/Primitives/Witness.antt =====
-- primitives/src/witness.rs: the witness of an input, a stack of byte strings kept in one buffer. The
-- elements stand in front, each behind its compact size, and a cursor to each behind them all.
-- `none` stands for a panic; `debug` says whether `debug_assert!` is compiled in.
pub mod Layout
pub mod Building
pub mod Reading
use rust_riecoin.Base.{
  ℕ, zero, suc, ◌+◌, ◌-◌, ◌*◌, Bool, Option, none, some, List, [], ◌∷◌, ◌++◌, ltb, leb, ◌==◌,
  if◌then◌else◌, length, take, drop, replicate,
}
use rust_riecoin.Internals.CompactSize.{encoded_size, encode, decode_unchecked}
use rust_riecoin.Primitives.Buffer.{
  ◌>>=◌, Endian, copy_from_slice, rotate_right_from, encode_cursor, decode_cursor,
}

pub record Witness : Type 0 where
  pub content : List ℕ
  pub witness_elements : ℕ
  pub indices_start : ℕ

-- `Witness::new` and `Witness::default`
abbrev pub new : Witness
new = record { content = []; witness_elements = 0; indices_start = 0 }

abbrev pub is_empty : Witness → Bool
is_empty w = w.witness_elements == 0

abbrev pub len : Witness → ℕ
len w = w.witness_elements

abbrev pub clear : Witness → Witness
clear w = record w { content = []; witness_elements = 0; indices_start = 0 }

-- The sum of the elements' sizes, as `from_slice` computes it.
unfoldable pub content_size : List (List ℕ) → ℕ
content_size [] = 0
content_size (elem ∷ slice) = length elem + encoded_size (length elem) + content_size slice

module _ (endian : Endian) where
  -- The loop of `from_slice`, from element `i` on.
  pub write_elements : ℕ → ℕ → ℕ → List (List ℕ) → List ℕ → Option (List ℕ)
  write_elements size i cursor [] content = some content
  write_elements size i cursor (elem ∷ slice) content = do
    let encoded = encode (length elem)
    content₁ ← encode_cursor endian content size i cursor
    content₂ ← copy_from_slice cursor encoded content₁
    content₃ ← copy_from_slice (cursor + length encoded) elem content₂
    write_elements size (i + 1) (cursor + length encoded + length elem) slice content₃

  pub from_slice : List (List ℕ) → Option Witness
  unfolding write_elements
  from_slice slice = do
    let size = content_size slice
    content ← write_elements size 0 0 slice (replicate (size + length slice * 4) 0)
    some (record { content = content; witness_elements = length slice; indices_start = size })

  -- `resize` only ever makes the buffer longer here.
  pub push_slice : Witness → List ℕ → Option Witness
  push_slice w new_element = do
    let previous_content_end = w.indices_start
    let encoded = encode (length new_element)
    let new_item_total_len = length encoded + length new_element
    let resized = w.content ++ replicate (new_item_total_len + 4) 0
    let indices_start = w.indices_start + new_item_total_len
    let end_compact_size = previous_content_end + length encoded
    rotated ← rotate_right_from previous_content_end new_item_total_len resized
    content₁ ← encode_cursor endian rotated indices_start w.witness_elements previous_content_end
    content₂ ← copy_from_slice previous_content_end encoded content₁
    content₃ ← copy_from_slice end_compact_size new_element content₂
    some (record {
      content = content₃;
      witness_elements = w.witness_elements + 1;
      indices_start = indices_start;
    })

  -- The element that starts at `pos`.
  pub element_at : Bool → List ℕ → ℕ → Option (List ℕ)
  element_at debug content pos = do
    slice ← if leb pos (length content) then some (drop pos content) else none
    (element_len, rest) ← decode_unchecked debug slice
    if leb element_len (length rest) then some (take element_len rest) else none

  -- The outer option is a panic, the inner one the source's `Option`.
  pub get : Bool → Witness → ℕ → Option (Option (List ℕ))
  unfolding element_at
  get debug w index = elim (decode_cursor endian w.content w.indices_start index) [
    | none ↦ some none
    | some pos ↦ element_at debug w.content pos >>= λ elem. some (some elem)
  ]

  pub get_back : Bool → Witness → ℕ → Option (Option (List ℕ))
  unfolding get
  get_back debug w index =
      if leb w.witness_elements index
      then some none
      else get debug w (w.witness_elements - 1 - index)

  pub last : Bool → Witness → Option (Option (List ℕ))
  unfolding get_back
  last debug w = get_back debug w 0

  -- `Iter::next` until `None`, from the element `current_index` on. Each turn finds four bytes of a
  -- cursor in the buffer, so its length is fuel enough; without fuel the iteration counts as a panic.
  pub iter : ℕ → Bool → Witness → ℕ → Option (List (List ℕ))
  unfolding element_at
  iter zero debug w current_index = none
  iter (suc fuel) debug w current_index =
      elim (decode_cursor endian w.content w.indices_start current_index) [
        | none ↦ some []
        | some pos ↦ element_at debug w.content pos >>= λ elem.
            iter fuel debug w (current_index + 1) >>= λ rest. some (elem ∷ rest)
      ]

  pub to_vec : Bool → Witness → Option (List (List ℕ))
  unfolding iter
  to_vec debug w = iter (length w.content + 1) debug w 0

  pub size : Bool → Witness → Option ℕ
  unfolding to_vec content_size
  size debug w = do
    elements ← to_vec debug w
    some (encoded_size w.witness_elements + content_size elements)

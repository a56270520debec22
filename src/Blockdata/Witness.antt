-- ===== src/Blockdata/Witness.antt =====
-- `Encodable` and `Decodable` for `Witness`, of bitcoin/src/blockdata/witness.rs. The decoder builds the
-- buffer in place, with the cursors in front until the last step.
pub mod Stack
pub mod Turn
pub mod Decode
pub mod Exact
use rust_riecoin.Base.{
  ℕ, zero, suc, ◌+◌, ◌-◌, ◌*◌, ◌^◌, ◌≤◌, ◌≡◌, Bool, Option, none, some, List, [], ◌∷◌, ◌++◌, ltb,
  leb, ◌==◌, if◌then◌else◌, length, take, replicate, max, All,
}
use rust_riecoin.Base.Bytes.{AreBytes}
use rust_riecoin.Internals.CompactSize.{encoded_size, encode}
use rust_riecoin.Primitives.Buffer.{Endian, copy_from_slice, rotate_left, encode_cursor}
use rust_riecoin.Primitives.Buffer as Buffer
use rust_riecoin.Primitives.Witness.{Witness, new, len, to_vec}
use rust_riecoin.Primitives.Witness.Layout.{layout, elements}
use rust_riecoin.Consensus.Result.{Result, ok, err, panic, ◌>>=◌, oversized_vector_allocation}
use rust_riecoin.Consensus.Io.{
  Reader, Written, ◌⊕◌, nothing, emit_compact_size, read_compact_size, read_exact,
}
use rust_riecoin.Consensus.Codec.{Codec}
use rust_riecoin.Consensus.Vec.{max_vec_size, consensus_encode_with_size}

-- A panic of a buffer operation.
abbrev pub run {ℓ} : {A : Type ℓ} → Option A → Result A
run none = panic
run (some a) = ok a

-- The loop of `resize_if_needed`. A turn makes `new_len` longer, so `required_len + 1` turns are enough.
pub grow : ℕ → ℕ → ℕ → ℕ
grow zero new_len required_len = new_len
grow (suc fuel) new_len required_len =
    let rest = grow fuel (new_len * 2) required_len in
    if leb new_len required_len then rest else new_len

pub resize_if_needed : List ℕ → ℕ → List ℕ
unfolding grow
resize_if_needed vec required_len =
    let new_len = grow (required_len + 1) (max (length vec) 1) required_len in
    if leb (length vec) required_len then vec ++ replicate (new_len - length vec) 0 else vec

-- `usize::checked_add`, with the error that the decoder gives on overflow.
abbrev pub checked_add : ℕ → ℕ → Result ℕ
checked_add a b =
    if ltb (a + b) (2 ^ 64)
    then ok (a + b)
    else err (oversized_vector_allocation (2 ^ 64 - 1) max_vec_size)

-- The length that the buffer needs for the next element, refused above the limit.
unfoldable pub required_len : ℕ → ℕ → ℕ → Result ℕ
required_len witness_index_space cursor element_size = do
  with_element ← checked_add cursor element_size
  required ← checked_add with_element (encoded_size element_size)
  if ltb (max_vec_size + witness_index_space) required
      then err (oversized_vector_allocation required max_vec_size)
      else ok required

-- What follows the loop: the cursors move behind the elements.
abbrev pub finish : ℕ → ℕ → (List ℕ × ℕ) × Reader → Result (Witness × Reader)
finish witness_elements witness_index_space ((content, cursor), r) = do
  rotated ← run (rotate_left witness_index_space (take cursor content))
  ok (
    record {
      content = rotated;
      witness_elements = witness_elements;
      indices_start = cursor - witness_index_space;
    },
    r,
  )

module _ (endian : Endian) where
  -- The loop over the elements: `k` are left, the next is number `i`. The result is the buffer and
  -- the cursor.
  pub decode_elements : ℕ → ℕ → ℕ → ℕ → List ℕ → Reader → Result ((List ℕ × ℕ) × Reader)
  unfolding resize_if_needed
  decode_elements zero i witness_index_space cursor content r = ok ((content, cursor), r)
  decode_elements (suc k) i witness_index_space cursor content r = do
    (element_size, r₁) ← read_compact_size r
    required ← required_len witness_index_space cursor element_size
    content₁ ← run (encode_cursor endian content 0 i (cursor - witness_index_space))
    let content₂ = resize_if_needed content₁ required
    content₃ ← run (copy_from_slice cursor (encode element_size) content₂)
    let cursor' = cursor + length (encode element_size)
    (bytes, r₂) ← read_exact element_size r₁
    content₄ ← run (copy_from_slice cursor' bytes content₃)
    decode_elements k (i + 1) witness_index_space (cursor' + element_size) content₄ r₂

  pub consensus_decode : Reader → Result (Witness × Reader)
  unfolding decode_elements
  consensus_decode r = do
    (witness_elements, r₁) ← read_compact_size r
    let space = witness_elements * 4
    let filled = decode_elements witness_elements 0 space space (replicate (space + 128) 0) r₁
    if ltb max_vec_size witness_elements
        then err (oversized_vector_allocation witness_elements max_vec_size)
        else if witness_elements == 0
        then ok (new, r₁)
        else filled >>= finish witness_elements space

  -- `for element in self.iter() { written += consensus_encode_with_size(element, w)? }`
  pub encode_stack : List (List ℕ) → Written
  encode_stack [] = nothing
  encode_stack (element ∷ rest) = consensus_encode_with_size element ⊕ encode_stack rest

  -- `none` is a panic of the iterator, on a buffer that no operation builds.
  pub consensus_encode : Bool → Witness → Option Written
  unfolding encode_stack
  consensus_encode debug w =
      Buffer.◌>>=◌ (to_vec endian debug w)
        λ stack. some (emit_compact_size (len w) ⊕ encode_stack stack)

  abbrev pub or_nothing : Option Written → Written
  or_nothing none = nothing
  or_nothing (some w) = w

  -- The laws are stated for the buffers of `IsWitness`, where the iterator does not panic.
  abbrev pub witness : Bool → Codec Witness
  witness debug = record {
    consensus_encode = λ w. or_nothing (consensus_encode debug w);
    consensus_decode_from_finite_reader = consensus_decode;
  }

  -- The witnesses that the decoder accepts: the layout of a stack of byte strings, with at most
  -- 4,000,000 elements and as many bytes.
  pub record IsWitness (w : Witness) : Type 0 where
    pub stack : List (List ℕ)
    pub laid_out : w ≡ layout endian stack
    pub few : length stack ≤ max_vec_size
    pub small : length (elements stack) ≤ max_vec_size
    pub bytes : All AreBytes stack

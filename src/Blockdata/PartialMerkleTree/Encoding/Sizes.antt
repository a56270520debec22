-- ===== src/Blockdata/PartialMerkleTree/Encoding/Sizes.antt =====
-- How long the encoding of a partial Merkle tree of bitcoin/src/merkle_tree/block.rs is.
use rust_riecoin.Base.{
  ℕ, ◌+◌, ◌*◌, ◌/◌, ◌≤◌, ◌≡◌, refl, arith, Bool, List, [], ◌∷◌, ◌++◌, length, length-append, All,
}
use rust_riecoin.Base.Bytes.{to_le_bytes, length-to_le_bytes}
use rust_riecoin.Internals.CompactSize.{encode}
use rust_riecoin.Internals.CompactSize.RoundTrip.{length-encode}
use rust_riecoin.Consensus.Io.{emit_compact_size}
use rust_riecoin.Consensus.Codec.{Codec}
use rust_riecoin.Consensus.Codec.Fixed.{array, IsArray}
use rust_riecoin.Consensus.Vec.{vec, encode_items}
use rust_riecoin.Blockdata.PartialMerkleTree.Encoding.{
  chunk, chunks, flag_bits, partial_merkle_tree,
}
use rust_riecoin.Blockdata.PartialMerkleTree.Encoding.Chunks.{IsChunk, chunks-IsChunk}
use rust_riecoin.Blockdata.PartialMerkleTree.Encoding.Exact.{IsFlags}

module _ {A : Type 0} (c : Codec A) (P : A → Type 0) (n : ℕ) where
  -- Items of the same length.
  length-encode_items :
      ((a : A) → P a → length (c.consensus_encode a).bytes ≡ n)
      → (xs : List A) → All P xs
      → length (encode_items c xs).bytes ≡ n * length xs
  unfolding encode_items
  length-encode_items each [] h = omega arith
  length-encode_items each (x ∷ xs) (p, h) = omega (
    arith,
    each x p,
    length-encode_items each xs h,
    length-append (c.consensus_encode x).bytes (encode_items c xs).bytes,
  )

pub hashes_size :
    (hs : List (List ℕ))
    → All (IsArray 32) hs
    → length ((vec (array 32)).consensus_encode hs).bytes ≤ 9 + 32 * length hs
unfolding emit_compact_size
hashes_size hs h = omega (
  arith,
  length-encode (length hs),
  length-encode_items (array 32) (IsArray 32) 32 (λ a p. p.0) hs h,
  length-append (encode (length hs)) (encode_items (array 32) hs).bytes,
)

flags_size :
    (bits : List Bool)
    → IsFlags bits
    → length (flag_bits.consensus_encode bits).bytes ≤ 9 + (length bits + 7) / 8
unfolding emit_compact_size
flags_size bits h =
    let k = (length bits + 7) / 8 in
    let (all, count) = chunks-IsChunk k (length bits) bits (omega arith) (omega arith) in
    let cs = chunks (length bits) bits in
    omega (
      arith,
      count,
      length-encode k,
      length-encode_items chunk IsChunk 1 (λ a p. refl) cs all,
      length-append (encode k) (encode_items chunk cs).bytes,
    )

-- A few bytes more than the hashes and the flags.
pub tree_size :
    (n : ℕ) (bits : List Bool) (hs : List (List ℕ))
    → IsFlags bits
    → All (IsArray 32) hs
    → length
        (partial_merkle_tree.consensus_encode
          (record { num_transactions = n; bits = bits; hashes = hs })).bytes
      ≤ 22 + 32 * length hs + (length bits + 7) / 8
tree_size n bits hs v h =
    let hashes = ((vec (array 32)).consensus_encode hs).bytes in
    omega (
      arith,
      length-to_le_bytes 4 n,
      hashes_size hs h,
      flags_size bits v,
      length-append (to_le_bytes 4 n) (hashes ++ (flag_bits.consensus_encode bits).bytes),
      length-append hashes (flag_bits.consensus_encode bits).bytes,
    )

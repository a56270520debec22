-- ===== src/Blockdata/PartialMerkleTree/Encoding.antt =====
-- The encoding of partial Merkle trees and Merkle blocks of bitcoin/src/merkle_tree/block.rs.
pub mod Chunks
pub mod Exact
pub mod Padding
pub mod Sizes
use rust_riecoin.Base.{
  ℕ, zero, suc, ◌+◌, ◌*◌, ◌/◌, ◌%◌, ◌^◌, Bool, true, false, List, [], ◌∷◌, ◌++◌, length, take, drop,
  ltb, ◌==◌, if◌then◌else◌,
}
use rust_riecoin.Consensus.Result.{Result, ok, err, ◌>>=◌, oversized_vector_allocation}
use rust_riecoin.Consensus.Io.{◌⊕◌, emit_compact_size, read_compact_size}
use rust_riecoin.Consensus.Codec.{Codec}
use rust_riecoin.Consensus.Codec.Fixed.{u8, u32, array}
use rust_riecoin.Consensus.Limited.{consensus_decode}
use rust_riecoin.Consensus.Vec.{vec, max_vec_size, encode_items, decode_items}
use rust_riecoin.Blockdata.PartialMerkleTree.{PartialMerkleTree}

-- `byte |= (*bit as u8) << i` for the flags from index `i` on; bit `i` is not set before.
unfoldable pub set_flags : ℕ → ℕ → List Bool → ℕ
set_flags i byte [] = byte
set_flags i byte (bit ∷ chunk) = set_flags (suc i) (byte + (if bit then 1 else 0) * 2 ^ i) chunk

-- `*bit = (byte & (1 << i)) != 0` for `count` flags from index `i` on.
unfoldable pub get_flags : ℕ → ℕ → ℕ → List Bool
get_flags zero i byte = []
get_flags (suc count) i byte = (byte / 2 ^ i % 2 == 1) ∷ get_flags count (suc i) byte

-- A chunk of flags in a byte.
abbrev pub chunk : Codec (List Bool)
chunk = record {
  consensus_encode = λ flags. u8.consensus_encode (set_flags 0 0 flags);
  consensus_decode_from_finite_reader = λ r. do
    (byte, r') ← u8.consensus_decode_from_finite_reader r
    ok (get_flags 8 0 byte, r');
}

-- `bits.chunks(8)`; the fuel is the number of flags.
unfoldable pub chunks : ℕ → List Bool → List (List Bool)
chunks fuel [] = []
chunks zero (b ∷ bs) = []
chunks (suc fuel) (b ∷ bs) = take 8 (b ∷ bs) ∷ chunks fuel (drop 8 (b ∷ bs))

abbrev pub concat : List (List Bool) → List Bool
concat [] = []
concat (c ∷ cs) = c ++ concat cs

-- The flags, behind the number of their bytes.
abbrev pub flag_bits : Codec (List Bool)
flag_bits = record {
  consensus_encode = λ bits.
      emit_compact_size ((length bits + 7) / 8) ⊕ encode_items chunk (chunks (length bits) bits);
  consensus_decode_from_finite_reader = λ r. do
    (nb_bytes_for_bits, r') ← read_compact_size r
    if ltb max_vec_size nb_bytes_for_bits
        then err (oversized_vector_allocation nb_bytes_for_bits max_vec_size)
        else (do (cs, r'') ← decode_items chunk nb_bytes_for_bits r'; ok (concat cs, r''));
}

abbrev pub partial_merkle_tree : Codec PartialMerkleTree
partial_merkle_tree = record {
  consensus_encode = λ pmt.
      u32.consensus_encode pmt.num_transactions
      ⊕ (vec (array 32)).consensus_encode pmt.hashes
      ⊕ flag_bits.consensus_encode pmt.bits;
  consensus_decode_from_finite_reader = λ r. do
    (num_transactions, r₁) ← u32.consensus_decode_from_finite_reader r
    (hashes, r₂) ← consensus_decode (vec (array 32)) r₁
    (bits, r₃) ← flag_bits.consensus_decode_from_finite_reader r₂
    ok (record { num_transactions = num_transactions; bits = bits; hashes = hashes }, r₃);
}

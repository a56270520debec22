-- ===== src/Blockdata/MerkleBlock/Checked.antt =====
-- Merkle blocks of bitcoin/src/merkle_tree/block.rs that are made from a block whose Merkle root was
-- checked.
use rust_riecoin.Base.{
  ℕ, suc, ◌<◌, ◌≤◌, ◌≡◌, refl, ap, ◌∙◌, arith, Bool, true, some, List, [], ◌∷◌, ◌++◌, map, length,
  All,
}
use rust_riecoin.Primitives.Buffer.{Endian}
use rust_riecoin.Primitives.Transaction.{Transaction}
use rust_riecoin.Primitives.Block.{Header, new_unchecked}
use rust_riecoin.Consensus.Result.{ok}
use rust_riecoin.Consensus.Codec.Fixed.{IsArray}
use rust_riecoin.Blockdata.Transaction.RoundTrip.{
  IsTransaction, version_bytes, in_bytes, out_bytes, lock_bytes,
}
use rust_riecoin.Blockdata.Block.Exact.{IsHeader}
use rust_riecoin.Blockdata.Block.Validate.{combine, check_merkle_root}
use rust_riecoin.Blockdata.Block.Root.{txid, map_all-txid, check_merkle_root_iff, eq_bytes_refl}
use rust_riecoin.Blockdata.MerkleTree.Levels.{calculate_root-tree_root}
use rust_riecoin.Blockdata.PartialMerkleTree.Slices.{matching}
use rust_riecoin.Blockdata.MerkleBlock as MerkleBlock
use rust_riecoin.Blockdata.MerkleBlock.{
  MerkleBlock, max_transactions, from_block_with_predicate, extract_block_matches,
}
use rust_riecoin.Blockdata.MerkleBlock.Traverse.{SiblingsDiffer, indexes_of}
use rust_riecoin.Blockdata.MerkleBlock.Authentic.{select}
use rust_riecoin.Blockdata.MerkleBlock.Encoding.{merkle_block}
use rust_riecoin.Blockdata.MerkleBlock.Relay.{extract_block_matches-merkle_block}

module _ (e : Endian) (debug : Bool) (sha256d : List ℕ → List ℕ) where
  txids-IsArray :
      ((bs : List ℕ) → IsArray 32 (sha256d bs))
      → (txs : List Transaction) → All (IsArray 32) (map (txid e debug sha256d) txs)
  txids-IsArray digest [] = tt
  txids-IsArray digest (tx ∷ rest) = (
    digest (version_bytes tx ++ (in_bytes tx ++ (out_bytes tx ++ lock_bytes tx))),
    txids-IsArray digest rest,
  )

  length-txids : (txs : List Transaction) → length (map (txid e debug sha256d) txs) ≡ length txs
  length-txids [] = refl
  length-txids (tx ∷ rest) = ap suc (length-txids rest)

  -- For a double hash that gives 32 bytes, and a block whose fields and transactions are in range,
  -- which has at least one and at most 16,666 transactions, no node with the hash of its neighbour
  -- under the same parent, and a Merkle root for which check_merkle_root answers true: a Merkle
  -- block is made of it for any predicate on the transaction hashes without a panic; it is decoded
  -- from its encoding, whatever follows; and extract_matches on what was decoded succeeds with the
  -- hashes that satisfy the predicate, in their order, and their indexes.
  pub from_block_with_predicate-extract_block_matches :
      (h : Header) (txs : List Transaction) (match_txids : List ℕ → Bool) (rest : List ℕ)
      → ((bs : List ℕ) → IsArray 32 (sha256d bs))
      → IsHeader h
      → All (IsTransaction e) txs
      → check_merkle_root e debug sha256d h txs ≡ some true
      → 0 < length txs
      → length txs ≤ max_transactions (combine e debug sha256d)
      → SiblingsDiffer
          (combine e debug sha256d)
          (map (txid e debug sha256d) txs)
          (map match_txids (map (txid e debug sha256d) txs))
      → let txids = map (txid e debug sha256d) txs in
        (block : MerkleBlock) × (received : MerkleBlock) × (from_block_with_predicate e debug
            sha256d
            (new_unchecked h txs)
            match_txids
          ≡ some block)
        × (merkle_block.consensus_decode_from_finite_reader
              ((merkle_block.consensus_encode block).bytes ++ rest)
            ≡ ok (received, rest))
        × (extract_block_matches (combine e debug sha256d) received
            ≡ MerkleBlock.ok
                (select match_txids txids, indexes_of (matching 0 txids (map match_txids txids))))
  unfolding from_block_with_predicate
  from_block_with_predicate-extract_block_matches h txs match_txids rest digest fits valid checked
        positive small distinct =
      let txids = map (txid e debug sha256d) txs in
      let count = length-txids txs in
      let (block, received, root, built, read, tree, extracts) =
        extract_block_matches-merkle_block (combine e debug sha256d) h txids match_txids rest fits
          (txids-IsArray digest txs) (λ l r p q. digest (l ++ r)) (omega arith) (omega arith)
          distinct in
      let (answer, asked, iff) = check_merkle_root_iff e debug sha256d h txs valid in
      let yes_answer : answer ≡ true = cc in
      let root_kept = iff.0 yes_answer in
      let (levels, empty) = calculate_root-tree_root (combine e debug sha256d) txids in
      let same : root ≡ h.merkle_root = cc in
      (
        block,
        received,
        rw (from_block_with_predicate, map_all-txid e debug sha256d txs valid) built,
        read,
        extracts ∙ rw (same, eq_bytes_refl h.merkle_root) refl,
      )

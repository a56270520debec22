-- ===== src/Blockdata/MerkleBlock/Relay.antt =====
-- Merkle blocks of bitcoin/src/merkle_tree/block.rs that are made, encoded, decoded and checked.
use rust_riecoin.Base.{
  ℕ, zero, suc, ◌+◌, ◌*◌, ◌^◌, ◌<◌, ◌≤◌, ◌≡◌, refl, sym, ap, ◌∙◌, arith, Bool-cases, inl, inr, Bool,
  false, some, List, [], ◌∷◌, ◌++◌, map, length, replicate, length-append, length-replicate,
  append-nil, All, All-append,
}
use rust_riecoin.Base.Powers.{pow_double}
use rust_riecoin.Primitives.Block.{Header}
use rust_riecoin.Consensus.Result.{ok}
use rust_riecoin.Consensus.Io.{◌⊕◌}
use rust_riecoin.Consensus.Codec.Fixed.{u32, array, IsArray}
use rust_riecoin.Consensus.Vec.{vec}
use rust_riecoin.Blockdata.Block.{header}
use rust_riecoin.Blockdata.Block.Exact.{IsHeader}
use rust_riecoin.Blockdata.MerkleTree.{calculate_root}
use rust_riecoin.Blockdata.PartialMerkleTree.Slices.{get_or}
use rust_riecoin.Blockdata.PartialMerkleTree.Shape.{has_right, node, mark, flags, stored}
use rust_riecoin.Blockdata.PartialMerkleTree.Build.{partial}
use rust_riecoin.Blockdata.PartialMerkleTree.Encoding.Exact.{IsPartialMerkleTree}
use rust_riecoin.Blockdata.PartialMerkleTree.Encoding.Padding.{
  padding, padded, flag_bits-padded, padded-IsFlags,
}
use rust_riecoin.Blockdata.PartialMerkleTree.Encoding.Sizes.{hashes_size, tree_size}
use rust_riecoin.Blockdata.MerkleBlock.{
  MerkleBlock, max_transactions, extract_block_matches, from_header_txids_with_predicate,
}
use rust_riecoin.Blockdata.MerkleBlock.Traverse.{partial_tree, SiblingsDiffer}
use rust_riecoin.Blockdata.MerkleBlock.RoundTrip.{stored-count}
use rust_riecoin.Blockdata.MerkleBlock.Authentic.{
  extract_matches-from_txids, extracted, extract_block_matches-ok, length-map,
}
use rust_riecoin.Blockdata.MerkleBlock.Encoding.{merkle_block, merkle_block-IsExact}

leaf-holds :
    (P : List ℕ → Type 0) (xs : List (List ℕ)) (pos : ℕ)
    → All P xs
    → pos < length xs
    → P (get_or [] xs pos)
leaf-holds P [] pos h b = absurd (omega arith)
leaf-holds P (x ∷ xs) zero (p, h) b = p
leaf-holds P (x ∷ xs) (suc pos) (p, h) b = leaf-holds P xs pos h (omega arith)

module _ (combine : List ℕ → List ℕ → List ℕ) (xs : List (List ℕ)) (ms : List Bool)
    (keeps : (l r : List ℕ) → IsArray 32 l → IsArray 32 r → IsArray 32 (combine l r))
    (leaves : All (IsArray 32) xs) where
  node-IsArray : (h pos : ℕ) → pos * 2 ^ h < length xs → IsArray 32 (node combine xs ms h pos)
  unfolding node
  node-IsArray zero pos b = leaf-holds (IsArray 32) xs pos leaves (omega arith)
  node-IsArray (suc h) pos b =
      let product : pos * 2 ^ suc h ≡ pos * (2 * 2 ^ h) = ap (λ t. pos * t) (pow_double h) in
      let left = node-IsArray h (pos * 2) (omega arith) in
      elim (Bool-cases (has_right combine xs ms h pos)) [
        | inl there ↦ rw there (
            keeps (node combine xs ms h (pos * 2)) (node combine xs ms h (pos * 2 + 1)) left
              (node-IsArray h (pos * 2 + 1) (ground arith)))
        | inr missing ↦
            rw missing
              (keeps (node combine xs ms h (pos * 2)) (node combine xs ms h (pos * 2)) left left)
      ]

  stored-IsArray :
      (h pos : ℕ) → pos * 2 ^ h < length xs → All (IsArray 32) (stored combine xs ms h pos)
  unfolding stored
  stored-IsArray zero pos b = (node-IsArray zero pos b, tt)
  stored-IsArray (suc h) pos b =
      let product : pos * 2 ^ suc h ≡ pos * (2 * 2 ^ h) = ap (λ t. pos * t) (pow_double h) in
      elim (Bool-cases (mark combine xs ms (suc h) pos)) [
        | inr plain ↦ rw plain (node-IsArray (suc h) pos b, tt)
        | inl above ↦
            let left = stored-IsArray h (pos * 2) (omega arith) in
            elim (Bool-cases (has_right combine xs ms h pos)) [
              | inl there ↦
                  let right = stored-IsArray h (pos * 2 + 1) (ground arith) in
                  rw (above, there)
                    (All-append (IsArray 32) (stored combine xs ms h (pos * 2))
                      (stored combine xs ms h (pos * 2 + 1)) left right)
              | inr missing ↦
                  rw (above, missing, append-nil (stored combine xs ms h (pos * 2))) left
            ]
      ]

-- For a way to combine two hashes of 32 bytes into one, a header whose fields are in range, and at
-- least one and at most 16,666 hashes of 32 bytes of which no node has the hash of its neighbour
-- under the same parent: the Merkle block for a predicate is made without a panic, and decoded
-- from its encoding, whatever follows, perhaps with flags that fill up the last byte;
-- extract_matches on what was decoded gives the hashes that satisfy the predicate, with their
-- indexes, if the root that calculate_root gives for all hashes is the one in the header, and the
-- error of a root mismatch otherwise.
pub extract_block_matches-merkle_block :
    (combine : List ℕ → List ℕ → List ℕ) (h : Header) (txids : List (List ℕ))
    (match_txids : List ℕ → Bool) (rest : List ℕ)
    → IsHeader h
    → All (IsArray 32) txids
    → ((l r : List ℕ) → IsArray 32 l → IsArray 32 r → IsArray 32 (combine l r))
    → 0 < length txids
    → length txids ≤ max_transactions combine
    → SiblingsDiffer combine txids (map match_txids txids)
    → (block : MerkleBlock) × (received : MerkleBlock) × (root : List ℕ)
      × (from_header_txids_with_predicate combine h txids match_txids ≡ some block)
      × (merkle_block.consensus_decode_from_finite_reader
            ((merkle_block.consensus_encode block).bytes ++ rest)
          ≡ ok (received, rest))
      × (calculate_root combine txids ≡ some (some root))
      × (extract_block_matches combine received ≡ extracted combine h txids match_txids root)
unfolding from_header_txids_with_predicate
extract_block_matches-merkle_block combine h txids match_txids rest header_fits leaves keeps
      positive small distinct =
    let ms = map match_txids txids in
    let (top, built, tree, extracts, bound) =
      extract_matches-from_txids combine txids ms positive (sym (length-map match_txids txids))
        small distinct in
    let bs = flags combine txids ms top 0 in
    let hs = stored combine txids ms top 0 in
    let (a, b, c, d) = stored-count combine txids ms top 0 (omega arith) in
    let received : MerkleBlock = record {
      header = h;
      txn = partial_tree (length txids) (padded bs) hs;
    } in
    let hashes = stored-IsArray combine txids ms keeps leaves top 0 (omega arith) in
    let padded_fits = padded-IsFlags bs (omega arith) in
    let filled = length-append bs (replicate (padding bs) false) in
    let unset = length-replicate (padding bs) false in
    let few = hashes_size hs hashes in
    let small_tree = tree_size (length txids) (padded bs) hs padded_fits hashes in
    let fits : IsPartialMerkleTree received.txn =
      (omega arith, (((omega arith, hashes), omega (arith, few)), padded_fits)) in
    let written : (merkle_block.consensus_encode
          (record { header = h; txn = partial combine txids ms bs hs })).bytes
        ≡ (merkle_block.consensus_encode received).bytes =
      ap
        (λ w.
          (header.consensus_encode h
            ⊕ u32.consensus_encode (length txids)
            ⊕ (vec (array 32)).consensus_encode hs
            ⊕ w).bytes)
        (sym (flag_bits-padded bs)) in
    let read : merkle_block.consensus_decode_from_finite_reader
          ((merkle_block.consensus_encode received).bytes ++ rest)
        ≡ ok (received, rest) =
      merkle_block-IsExact.decode-encode received rest
        (header_fits, (fits, omega (arith, small_tree))) in
    (
      record { header = h; txn = partial combine txids ms bs hs },
      received,
      node combine txids ms top 0,
      rw (from_header_txids_with_predicate, built) refl,
      ap (λ t. merkle_block.consensus_decode_from_finite_reader (t ++ rest)) written ∙ read,
      tree,
      extract_block_matches-ok combine h txids match_txids _ _
          (extracts (replicate (padding bs) false) (omega arith)),
    )

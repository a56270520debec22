-- ===== src/Blockdata/MerkleBlock.antt =====
-- The extraction of matches from partial Merkle trees, and Merkle blocks, of
-- bitcoin/src/merkle_tree/block.rs.
pub mod Traverse
pub mod RoundTrip
pub mod Authentic
pub mod Encoding
pub mod Relay
pub mod Checked
use rust_riecoin.Base.{
  ℕ, zero, suc, ◌+◌, ◌-◌, ◌*◌, ◌/◌, ◌%◌, ◌^◌, Bool, true, false, not, ◌&&◌, Option, none, some,
  List, [], ◌∷◌, ◌++◌, map, length, get_elem?, ltb, leb, ◌==◌, if◌then◌else◌,
}
use rust_riecoin.Primitives.Buffer.{Endian}
use rust_riecoin.Primitives.Txid.{compute_txid}
use rust_riecoin.Primitives.Block.{Header, Block}
use rust_riecoin.Blockdata.Block.Validate as Validate
use rust_riecoin.Blockdata.Block.Validate.{eq_bytes, map_all}
use rust_riecoin.Blockdata.PartialMerkleTree.{
  PartialMerkleTree, calc_tree_width, calc_tree_height, from_txids,
}

pub data MerkleBlockError : Type 0 where
  merkle_root_mismatch no_transactions too_many_transactions too_many_hashes : MerkleBlockError
  not_enough_bits not_all_bits_consumed not_all_hashes_consumed : MerkleBlockError
  bits_array_overflow hashes_array_overflow identical_hashes_found : MerkleBlockError

pub record MerkleBlock : Type 0 where
  pub header : Header
  pub txn : PartialMerkleTree

pub data Extract {ℓ} (A : Type ℓ) : Type ℓ where
  ok : A → Extract A
  err : MerkleBlockError → Extract A
  panic : Extract A

infixl 5 ◌>>=◌ ◌>>◌
abbrev pub ◌>>=◌ {ℓ κ} : {A : Type ℓ} {B : Type κ} → Extract A → (A → Extract B) → Extract B
ok a >>= f = f a
err e >>= f = err e
panic >>= f = panic

abbrev pub ◌>>◌ {ℓ} : {B : Type ℓ} → Extract (Unit {0}) → Extract B → Extract B
m >> k = m >>= λ _. k

abbrev pub refuse_if : Bool → MerkleBlockError → Extract (Unit {0})
refuse_if true e = err e
refuse_if false e = ok tt

-- An index into a slice.
abbrev pub at {ℓ} : {A : Type ℓ} → List A → ℕ → Extract A
at xs i = elim (get_elem? xs i) [ none ↦ panic | some x ↦ ok x ]

-- The counters and the vectors that the traversal changes.
pub record Extraction : Type 0 where
  pub bits_used : ℕ
  pub hash_used : ℕ
  pub matches : List (List ℕ)
  pub indexes : List ℕ

abbrev pub Step : Type 0
Step = Extract (List ℕ × Extraction)

-- The flag of a node.
unfoldable pub next_bit : PartialMerkleTree → Extraction → Extract (Bool × Extraction)
next_bit pmt st = do
  refuse_if (leb (length pmt.bits) st.bits_used) bits_array_overflow
  parent_of_match ← at pmt.bits st.bits_used
  ok (parent_of_match, record st { bits_used = st.bits_used + 1 })

-- A stored hash, at height 0 perhaps that of a match.
unfoldable pub stored_hash : PartialMerkleTree → Bool → ℕ → Extraction → Step
stored_hash pmt is_match pos st = do
  refuse_if (leb (length pmt.hashes) st.hash_used) hashes_array_overflow
  hash ← at pmt.hashes st.hash_used
  let used = record st { hash_used = st.hash_used + 1 }
  ok (
    hash,
    if is_match
        then record used { matches = used.matches ++ hash ∷ []; indexes = used.indexes ++ pos ∷ [] }
        else used,
  )

module _ (combine : List ℕ → List ℕ → List ℕ) where
  unfoldable pub combine_distinct : List ℕ → List ℕ × Extraction → Step
  combine_distinct left (right, st) = do
    refuse_if (eq_bytes right left) identical_hashes_found
    ok (combine left right, st)

  unfoldable pub traverse_and_extract : PartialMerkleTree → ℕ → ℕ → Extraction → Step
  unfolding next_bit stored_hash combine_distinct
  traverse_and_extract pmt zero pos st = do
    (parent_of_match, st') ← next_bit pmt st
    stored_hash pmt parent_of_match pos st'
  traverse_and_extract pmt (suc height) pos st = do
    (parent_of_match, st') ← next_bit pmt st
    let descend = traverse_and_extract pmt height (pos * 2) st' >>= λ left.
        let both = traverse_and_extract pmt height (pos * 2 + 1) left.1 >>= λ right.
        combine_distinct left.0 right in
        if ltb (pos * 2 + 1) (calc_tree_width pmt.num_transactions height)
        then both
        else ok (combine left.0 left.0, left.1)
    if parent_of_match then descend else stored_hash pmt false pos st'

  -- `Weight::MAX_BLOCK / Weight::MIN_TRANSACTION`
  abbrev pub max_transactions : ℕ
  max_transactions = 4_000_000 / (4 * 60)

  unfoldable pub height_of : PartialMerkleTree → Extract ℕ
  unfolding calc_tree_height
  height_of pmt = elim (calc_tree_height pmt.num_transactions) [ none ↦ panic | some h ↦ ok h ]

  -- The root, and the matches with their indexes.
  unfoldable pub extract_matches : PartialMerkleTree → Extract (List ℕ × List (List ℕ) × List ℕ)
  unfolding height_of traverse_and_extract
  extract_matches pmt = do
    refuse_if (pmt.num_transactions == 0) no_transactions
    refuse_if (ltb max_transactions pmt.num_transactions) too_many_transactions
    refuse_if (ltb pmt.num_transactions (length pmt.hashes % 2 ^ 32)) too_many_hashes
    refuse_if (ltb (length pmt.bits) (length pmt.hashes)) not_enough_bits
    height ← height_of pmt
    (root, st) ←
        traverse_and_extract pmt height 0
          (record { bits_used = 0; hash_used = 0; matches = []; indexes = [] })
    refuse_if (not ((st.bits_used + 7) % 2 ^ 32 / 8 == (length pmt.bits % 2 ^ 32 + 7) % 2 ^ 32 / 8))
        not_all_bits_consumed
    refuse_if (not (st.hash_used == length pmt.hashes % 2 ^ 32)) not_all_hashes_consumed
    ok (root, st.matches, st.indexes)

  -- `none` is a panic.
  unfoldable pub from_header_txids_with_predicate :
      Header → List (List ℕ) → (List ℕ → Bool) → Option MerkleBlock
  from_header_txids_with_predicate header block_txids match_txids =
      let matches = map match_txids block_txids in
      elim (from_txids combine block_txids matches) [
        | none ↦ none
        | some pmt ↦ some (record { header = header; txn = pmt })
      ]

  -- `MerkleBlock::extract_matches`
  unfoldable pub extract_block_matches : MerkleBlock → Extract (List (List ℕ) × List ℕ)
  unfolding extract_matches
  extract_block_matches block = do
    (merkle_root, matches, indexes) ← extract_matches block.txn
    refuse_if (not (eq_bytes merkle_root block.header.merkle_root)) merkle_root_mismatch
    ok (matches, indexes)

module _ (endian : Endian) (debug : Bool) (sha256d : List ℕ → List ℕ) where
  unfoldable pub from_block_with_predicate : Block → (List ℕ → Bool) → Option MerkleBlock
  unfolding from_header_txids_with_predicate
  from_block_with_predicate block match_txids =
      elim (map_all (compute_txid endian debug sha256d) block.transactions) [
        | none ↦ none
        | some block_txids ↦
            from_header_txids_with_predicate (Validate.combine endian debug sha256d) block.header
              block_txids match_txids
      ]

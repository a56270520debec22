-- ===== src/Blockdata/MerkleBlock/Authentic.antt =====
-- Merkle blocks of bitcoin/src/merkle_tree/block.rs: what extract_matches gives of a tree that
-- from_txids built.
use rust_riecoin.Base.{
  ℕ, suc, ◌+◌, ◌*◌, ◌/◌, ◌%◌, ◌^◌, ◌<◌, ◌≤◌, ◌≡◌, refl, sym, ap, ◌∙◌, arith, Bool-cases, inl, inr,
  Bool, true, false, some, List, [], ◌∷◌, ◌++◌, length, map, append-nil, length-append, ltb, ◌==◌,
  ==_iff, if◌then◌else◌,
}
use rust_riecoin.Primitives.Block.{Header}
use rust_riecoin.Blockdata.Block.Validate.{eq_bytes}
use rust_riecoin.Blockdata.MerkleTree.{calculate_root}
use rust_riecoin.Blockdata.MerkleTree.Levels.{calculate_root-tree_root}
use rust_riecoin.Blockdata.PartialMerkleTree.{PartialMerkleTree, calc_tree_height, from_txids}
use rust_riecoin.Blockdata.PartialMerkleTree.Slices.{matching}
use rust_riecoin.Blockdata.PartialMerkleTree.Shape.{node, flags, stored}
use rust_riecoin.Blockdata.PartialMerkleTree.Build.{partial, traverse_and_build-flags}
use rust_riecoin.Blockdata.PartialMerkleTree.Encoding.Padding.{padding}
use rust_riecoin.Blockdata.PartialMerkleTree.Height.{calc_tree_height_lem, tree_root-node}
use rust_riecoin.Blockdata.MerkleBlock.{
  merkle_root_mismatch, Extract, ok, err, MerkleBlock, max_transactions, height_of, extract_matches,
  extract_block_matches, from_header_txids_with_predicate,
}
use rust_riecoin.Blockdata.MerkleBlock.Traverse.{partial_tree, SiblingsDiffer, txids_of, indexes_of}
use rust_riecoin.Blockdata.MerkleBlock.RoundTrip.{
  traverse_and_extract-flags, stored-count, found-all,
}

module _ (combine : List ℕ → List ℕ → List ℕ) (xs : List (List ℕ)) (ms : List Bool) where
  from_txids-flags :
      (top : ℕ)
      → 0 < length xs
      → length xs ≡ length ms
      → length xs ≤ 2 ^ 31
      → calc_tree_height (length xs) ≡ some top
      → top ≤ 31
      → from_txids combine xs ms
        ≡ some (partial combine xs ms (flags combine xs ms top 0) (stored combine xs ms top 0))
  unfolding from_txids
  from_txids-flags top positive l small height low =
      let nonempty : (length xs == 0) ≡ false = ground arith in
      let same : (length xs == length ms) ≡ true = ground arith in
      let size : length xs % 2 ^ 32 ≡ length xs = omega arith in
      rw
        (
          nonempty,
          same,
          size,
          height,
          size,
          traverse_and_build-flags combine xs ms top 0 [] [] l small low (omega arith),
        )
        refl

  height_of_lem :
      (pmt : PartialMerkleTree) (top : ℕ)
      → calc_tree_height pmt.num_transactions ≡ some top
      → height_of combine pmt ≡ ok top
  unfolding height_of
  height_of_lem pmt top e = rw (height_of, e) refl

  -- The flags may be followed by others in the last byte.
  extract_matches-flags :
      (top : ℕ) (post : List Bool)
      → 0 < length xs
      → length xs ≡ length ms
      → length xs ≤ max_transactions combine
      → SiblingsDiffer combine xs ms
      → calc_tree_height (length xs) ≡ some top
      → length xs ≤ 2 ^ top
      → top ≤ 31
      → length post ≤ padding (flags combine xs ms top 0)
      → 2 ^ top ≤ 2 ^ 31
      → extract_matches combine (
          partial_tree (length xs) (flags combine xs ms top 0 ++ post) (stored combine xs ms top 0))
        ≡ ok (node combine xs ms top 0, txids_of (matching 0 xs ms), indexes_of (matching 0 xs ms))
  unfolding extract_matches
  extract_matches-flags top post positive l small distinct height fits low fill bound =
      let fs = flags combine xs ms top 0 in
      let ss = stored combine xs ms top 0 in
      let (a, b, c, d) = stored-count combine xs ms top 0 (omega arith) in
      let joined = length-append fs post in
      let nonempty : (length xs == 0) ≡ false = ground arith in
      let few : ltb (max_transactions combine) (length xs) ≡ false = ground arith in
      let hashes : length ss % 2 ^ 32 ≡ length ss = omega arith in
      let enough : ltb (length xs) (length ss) ≡ false = ground arith in
      let covered : ltb (length (fs ++ post)) (length ss) ≡ false = ground arith in
      let bits : (length (fs ++ post) % 2 ^ 32 + 7) % 2 ^ 32 / 8
          ≡ (0 + length fs + 7) % 2 ^ 32 / 8 =
        omega arith in
      let all_hashes : 0 + length ss ≡ length ss = omega arith in
      let visited =
        traverse_and_extract-flags combine xs ms l (omega arith) distinct top 0 (fs ++ post) [] post
          ss [] [] 0 0 [] [] low (omega arith) refl (sym (append-nil ss)) refl refl in
      rw
        (
          extract_matches,
          nonempty,
          few,
          hashes,
          enough,
          covered,
          height_of_lem (partial_tree (length xs) (fs ++ post) ss) top height,
          visited,
          bits,
          (==_iff ((0 + length fs + 7) % 2 ^ 32 / 8) ((0 + length fs + 7) % 2 ^ 32 / 8)).1 refl,
          all_hashes,
          (==_iff (length ss) (length ss)).1 refl,
          found-all combine xs ms top l fits,
        )
        refl

  -- The tree of the given transactions is built without a panic, and extract_matches gives its root
  -- and the matched transactions with their indexes, also when the last byte is filled up.
  pub extract_matches-from_txids :
      0 < length xs
      → length xs ≡ length ms
      → length xs ≤ max_transactions combine
      → SiblingsDiffer combine xs ms
      → (top : ℕ) × (from_txids combine xs ms
          ≡ some (partial combine xs ms (flags combine xs ms top 0) (stored combine xs ms top 0)))
        × (calculate_root combine xs ≡ some (some (node combine xs ms top 0)))
        × ((post : List Bool)
            → length post ≤ padding (flags combine xs ms top 0)
            → extract_matches combine (
                partial_tree
                  (length xs)
                  (flags combine xs ms top 0 ++ post)
                  (stored combine xs ms top 0))
              ≡ ok (
                node combine xs ms top 0,
                txids_of (matching 0 xs ms),
                indexes_of (matching 0 xs ms),
              ))
        × (2 ^ top < 2 * length xs)
  extract_matches-from_txids positive l small distinct =
      let (top, height, fits, least, low) =
        calc_tree_height_lem (length xs) positive (omega arith) in
      let bound : 2 ^ top ≤ 2 ^ 31 = omega arith in
      let (tree, empty) = calculate_root-tree_root combine xs in
      let root = tree_root-node combine ms top (length xs) xs fits least (omega arith) in
      (
        top,
        from_txids-flags top positive l (omega arith) height low,
        tree ∙ ap some root,
        λ post fill.
            extract_matches-flags top post positive l small distinct height fits low fill bound,
        least,
      )

-- The transactions that match, in order.
abbrev pub select : (List ℕ → Bool) → List (List ℕ) → List (List ℕ)
select p [] = []
select p (x ∷ xs) = if p x then x ∷ select p xs else select p xs

select-matching :
    (p : List ℕ → Bool) (xs : List (List ℕ)) (i : ℕ)
    → txids_of (matching i xs (map p xs)) ≡ select p xs
select-matching p [] i = refl
select-matching p (x ∷ xs) i = elim (Bool-cases (p x)) [
  | inl yes' ↦ rw yes' (ap (λ t. x ∷ t) (select-matching p xs (suc i)))
  | inr no' ↦ rw no' (select-matching p xs (suc i))
]

pub length-map : (p : List ℕ → Bool) (xs : List (List ℕ)) → length (map p xs) ≡ length xs
length-map p [] = refl
length-map p (x ∷ xs) = ap suc (length-map p xs)

abbrev pub extracted :
    (List ℕ → List ℕ → List ℕ)
    → Header
    → List (List ℕ)
    → (List ℕ → Bool)
    → List ℕ
    → Extract (List (List ℕ) × List ℕ)
extracted combine header txids match_txids root =
    if eq_bytes root header.merkle_root
    then ok (select match_txids txids, indexes_of (matching 0 txids (map match_txids txids)))
    else err merkle_root_mismatch

pub extract_block_matches-ok :
    (combine : List ℕ → List ℕ → List ℕ) (header : Header) (txids : List (List ℕ))
    (match_txids : List ℕ → Bool) (pmt : PartialMerkleTree) (root : List ℕ)
    → extract_matches combine pmt
      ≡ ok (
        root,
        txids_of (matching 0 txids (map match_txids txids)),
        indexes_of (matching 0 txids (map match_txids txids)),
      )
    → extract_block_matches combine (record { header = header; txn = pmt })
      ≡ extracted combine header txids match_txids root
unfolding extract_block_matches
extract_block_matches-ok combine header txids match_txids pmt root e =
    rw (extract_block_matches, e, select-matching match_txids txids 0)
      (elim (Bool-cases (eq_bytes root header.merkle_root)) [
        | inl same ↦ rw same refl
        | inr differ ↦ rw differ refl
      ])

-- For any way to combine nodes, any header, and at least one and at most 16,666 leaves of which no
-- node has the hash of its neighbour under the same parent: the Merkle block for a predicate is
-- made without a panic, calculate_root gives a root for the leaves, and extract_matches on the
-- block gives the leaves that satisfy the predicate, in their order, with their indexes, if that
-- root is the one in the header, and the error of a root mismatch otherwise.
pub extract_block_matches_lem :
    (combine : List ℕ → List ℕ → List ℕ) (header : Header) (txids : List (List ℕ))
    (match_txids : List ℕ → Bool)
    → 0 < length txids
    → length txids ≤ max_transactions combine
    → SiblingsDiffer combine txids (map match_txids txids)
    → (block : MerkleBlock) × (root : List ℕ) × (from_header_txids_with_predicate combine header
          txids match_txids
        ≡ some block)
      × (calculate_root combine txids ≡ some (some root))
      × (extract_block_matches combine block ≡ extracted combine header txids match_txids root)
unfolding from_header_txids_with_predicate
extract_block_matches_lem combine header txids match_txids positive small distinct =
    let ms = map match_txids txids in
    let (top, built, tree, extracts, bound) =
      extract_matches-from_txids combine txids ms positive (sym (length-map match_txids txids))
        small distinct in
    let bs = flags combine txids ms top 0 in
    let hs = stored combine txids ms top 0 in
    let direct = rw (append-nil bs) at (extracts [] (omega arith)) in
    (
      record { header = header; txn = partial combine txids ms bs hs },
      node combine txids ms top 0,
      rw (from_header_txids_with_predicate, built) refl,
      tree,
      extract_block_matches-ok combine header txids match_txids _ _ direct,
    )

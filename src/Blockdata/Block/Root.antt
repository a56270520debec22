-- ===== src/Blockdata/Block/Root.antt =====
-- The Merkle root check of bitcoin/src/blockdata/block.rs.
use rust_riecoin.Base.{
  ℕ, ◌≡◌, refl, sym, ap, ap₂, ◌↔◌, Bool, true, false, Option, none, some, Bool-cases, inl, inr,
  List, [], ◌∷◌, ◌++◌, map, All, length, ◌==◌, ==_iff,
}
use rust_riecoin.Primitives.Buffer.{Endian}
use rust_riecoin.Primitives.Transaction.{Transaction}
use rust_riecoin.Primitives.Txid.{compute_txid}
use rust_riecoin.Primitives.Block.{Header}
use rust_riecoin.Blockdata.Transaction.RoundTrip.{
  IsTransaction, version_bytes, in_bytes, out_bytes, lock_bytes,
}
use rust_riecoin.Blockdata.Transaction.Ids.{ids-encode}
use rust_riecoin.Blockdata.MerkleTree.Levels.{tree_root, calculate_root-tree_root}
use rust_riecoin.Blockdata.Block.Validate.{
  eq_bytes, map_all, combine, compute_merkle_root, check_merkle_root,
}

pub eq_bytes_lem : (xs ys : List ℕ) → eq_bytes xs ys ≡ true → xs ≡ ys
eq_bytes_lem [] [] h = refl
eq_bytes_lem [] (y ∷ ys) h = cc
eq_bytes_lem (x ∷ xs) [] h = cc
eq_bytes_lem (x ∷ xs) (y ∷ ys) h = elim (Bool-cases (x == y)) [
  | inl e ↦
      let rest : eq_bytes xs ys ≡ true = rw e at h in
      ap₂ (λ u us. u ∷ us) ((==_iff x y).0 e) (eq_bytes_lem xs ys rest)
  | inr e ↦ absurd (let k = rw e at h in cc)
]

pub eq_bytes_refl : (xs : List ℕ) → eq_bytes xs xs ≡ true
eq_bytes_refl [] = refl
eq_bytes_refl (x ∷ xs) = rw ((==_iff x x).1 refl) (eq_bytes_refl xs)

module _ (e : Endian) (debug : Bool) (sha256d : List ℕ → List ℕ) where
  -- The hash of the serialization without marker, flag and witnesses.
  abbrev pub txid : Transaction → List ℕ
  txid tx = sha256d (version_bytes tx ++ (in_bytes tx ++ (out_bytes tx ++ lock_bytes tx)))

  pub map_all-txid :
      (txs : List Transaction)
      → All (IsTransaction e) txs
      → map_all (compute_txid e debug sha256d) txs ≡ some (map txid txs)
  map_all-txid [] h = refl
  map_all-txid (tx ∷ rest) (v, h) =
      let (full, id, same) = ids-encode e debug sha256d tx v in rw (id, map_all-txid rest h) refl

  -- The root of the tree of these hashes, level by level.
  abbrev pub txid_root : List Transaction → Option (List ℕ)
  txid_root txs = tree_root (combine e debug sha256d) (length (map txid txs)) (map txid txs)

  compute_merkle_root-txid_root :
      (txs : List Transaction)
      → All (IsTransaction e) txs
      → compute_merkle_root e debug sha256d txs ≡ some (txid_root txs)
  unfolding compute_merkle_root
  compute_merkle_root-txid_root txs h =
      let (root, empty) = calculate_root-tree_root (combine e debug sha256d) (map txid txs) in
      rw (map_all-txid txs h) root

  abbrev root_matches : Header → Option (List ℕ) → Bool
  root_matches h none = false
  root_matches h (some merkle_root) = eq_bytes h.merkle_root merkle_root

  root_matches_lem :
      (h : Header) (root : Option (List ℕ))
      → (root_matches h root ≡ true) ↔ (root ≡ some h.merkle_root)
  root_matches_lem h none = (λ k. cc, λ k. cc)
  root_matches_lem h (some merkle_root) = (
    λ k. ap some (sym (eq_bytes_lem h.merkle_root merkle_root k)),
    λ k. let same : merkle_root ≡ h.merkle_root = cc in rw same (eq_bytes_refl h.merkle_root),
  )

  -- For transactions that fit, check_merkle_root does not panic, and it answers true exactly when
  -- the root of the tree over the txids exists and is the one in the header.
  pub check_merkle_root_iff :
      (h : Header) (txs : List Transaction)
      → All (IsTransaction e) txs
      → (b : Bool) × (check_merkle_root e debug sha256d h txs ≡ some b)
        × ((b ≡ true) ↔ (txid_root txs ≡ some h.merkle_root))
  unfolding check_merkle_root
  check_merkle_root_iff h txs v = (
    root_matches h (txid_root txs),
    rw (compute_merkle_root-txid_root txs v) refl,
    root_matches_lem h (txid_root txs),
  )

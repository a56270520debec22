-- ===== src/Blockdata/PartialMerkleTree/Build.antt =====
-- What traverse_and_build of bitcoin/src/merkle_tree/block.rs stores: the flags and the hashes of the
-- visited nodes.
use rust_riecoin.Base.{
  ℕ, zero, suc, ◌+◌, ◌*◌, ◌^◌, ◌<◌, ◌≤◌, ◌≡◌, refl, ap, ap₂, arith, Bool-cases, inl, inr, Bool,
  true, false, some, List, [], ◌∷◌, ◌++◌, length, append_assoc, append-nil,
}
use rust_riecoin.Base.Powers.{pow_double}
use rust_riecoin.Blockdata.PartialMerkleTree.{PartialMerkleTree, store_hash, traverse_and_build}
use rust_riecoin.Blockdata.PartialMerkleTree.Shape.{
  ltb-width, has_right, node, mark, flags, stored, scan_matches-mark, calc_hash-node,
}

module _ (combine : List ℕ → List ℕ → List ℕ) (xs : List (List ℕ)) (ms : List Bool) where
  -- A partial tree for these transactions.
  abbrev pub partial : List Bool → List (List ℕ) → PartialMerkleTree
  partial bs hs = record { num_transactions = length xs; bits = bs; hashes = hs }

  store_hash-node :
      (h pos : ℕ) (bs : List Bool) (hs : List (List ℕ))
      → length xs ≤ 2 ^ 31
      → h ≤ 31
      → pos * 2 ^ h < length xs
      → store_hash combine xs h pos (partial bs hs)
        ≡ some (partial bs (hs ++ node combine xs ms h pos ∷ []))
  unfolding store_hash
  store_hash-node h pos bs hs small low b =
      rw (store_hash, calc_hash-node combine xs ms h pos small low b) refl

  pub traverse_and_build-flags :
      (h pos : ℕ) (bs : List Bool) (hs : List (List ℕ))
      → length xs ≡ length ms
      → length xs ≤ 2 ^ 31
      → h ≤ 31
      → pos * 2 ^ h < length xs
      → traverse_and_build combine h pos xs ms (partial bs hs)
        ≡ some (partial (bs ++ flags combine xs ms h pos) (hs ++ stored combine xs ms h pos))
  unfolding traverse_and_build flags stored
  traverse_and_build-flags zero pos bs hs l small low b =
      rw
        (
          traverse_and_build,
          scan_matches-mark combine xs ms zero pos l,
          store_hash-node zero pos (bs ++ mark combine xs ms zero pos ∷ []) hs small low b,
        )
        refl
  traverse_and_build-flags (suc h) pos bs hs l small low b =
      let product : pos * 2 ^ suc h ≡ pos * (2 * 2 ^ h) = ap (λ t. pos * t) (pow_double h) in
      elim (Bool-cases (mark combine xs ms (suc h) pos)) [
        | inr plain ↦
            rw
              (
                traverse_and_build,
                scan_matches-mark combine xs ms (suc h) pos l,
                plain,
                store_hash-node (suc h) pos (bs ++ false ∷ []) hs small low b,
              )
              refl
        | inl above ↦
            let left =
              traverse_and_build-flags h (pos * 2) (bs ++ true ∷ []) hs l small (omega arith)
                (omega arith) in
            elim (Bool-cases (has_right combine xs ms h pos)) [
              | inl there ↦
                  let right =
                    traverse_and_build-flags h (pos * 2 + 1)
                      ((bs ++ true ∷ []) ++ flags combine xs ms h (pos * 2))
                      (hs ++ stored combine xs ms h (pos * 2)) l small (omega arith)
                      (ground arith) in
                  rw
                    (
                      traverse_and_build,
                      scan_matches-mark combine xs ms (suc h) pos l,
                      above,
                      left,
                      ltb-width (length xs) h (pos * 2 + 1) small (omega arith),
                      there,
                      right,
                    )
                    (ap₂ (λ b' h'. some (partial b' h')) (simp append_assoc) (simp append_assoc))
              | inr missing ↦
                  rw
                    (
                      traverse_and_build,
                      scan_matches-mark combine xs ms (suc h) pos l,
                      above,
                      left,
                      ltb-width (length xs) h (pos * 2 + 1) small (omega arith),
                      missing,
                    )
                    (ap₂ (λ b' h'. some (partial b' h')) (simp (append_assoc, append-nil))
                      (simp append-nil))
            ]
      ]

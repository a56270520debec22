-- ===== src/Blockdata/PartialMerkleTree/Height.antt =====
-- calc_tree_height of bitcoin/src/merkle_tree/block.rs, and the root of the tree of that height.
use rust_riecoin.Base.{
  ℕ, zero, suc, ◌+◌, ◌*◌, ◌/◌, ◌^◌, ◌<◌, ◌≤◌, ◌≡◌, refl, sym, ap, ap₂, ◌∙◌, arith, Bool-cases, inl,
  inr, Bool, true, false, some, List, [], ◌∷◌, length, ltb,
}
use rust_riecoin.Base.Powers.{pow_pos, pow_double}
use rust_riecoin.Blockdata.PartialMerkleTree.{calc_tree_height, height_from}
use rust_riecoin.Blockdata.PartialMerkleTree.Shape.{
  ltb-width, has_right, node, node-both, node-left,
}
use rust_riecoin.Blockdata.MerkleTree.Levels.{parents, tree_root}

height_from_lem :
    (k n h : ℕ)
    → n ≤ 2 ^ 31
    → h + k ≡ 31
    → 2 ^ h < 2 * n
    → (top : ℕ) × (height_from (suc k) n h ≡ some top)
      × (n ≤ 2 ^ top)
      × (2 ^ top < 2 * n)
      × (top ≤ 31)
unfolding height_from
height_from_lem zero n h small e b =
    let last : h ≡ 31 = omega arith in
    let stop : ltb (1 * 2 ^ h) n ≡ false = rw last (ground arith) in
    (h, rw (ltb-width n h 1 small (omega arith), stop) refl, ground arith, b, omega arith)
height_from_lem (suc k) n h small e b = elim (Bool-cases (ltb (1 * 2 ^ h) n)) [
  | inl more ↦
      let double = pow_double h in
      let (top, f, c, d, l) = height_from_lem k n (suc h) small (omega arith) (ground arith) in
      (top, rw (ltb-width n h 1 small (omega arith), more) f, c, d, l)
  | inr stop ↦
      (h, rw (ltb-width n h 1 small (omega arith), stop) refl, ground arith, b, omega arith)
]

-- The height of the tree is the least at which all leaves are below the root.
pub calc_tree_height_lem :
    (n : ℕ)
    → 0 < n
    → n ≤ 2 ^ 31
    → (top : ℕ) × (calc_tree_height n ≡ some top) × (n ≤ 2 ^ top) × (2 ^ top < 2 * n) × (top ≤ 31)
unfolding calc_tree_height
calc_tree_height_lem n positive small = height_from_lem 31 n 0 small (omega arith) (omega arith)

module _ (combine : List ℕ → List ℕ → List ℕ) (ms : List Bool) where
  length-parents : (xs : List (List ℕ)) → length (parents combine xs) ≡ (length xs + 1) / 2
  length-parents [] = omega arith
  length-parents (x ∷ []) = omega arith
  length-parents (x ∷ y ∷ rest) = omega (arith, length-parents rest)

  leaf-skip :
      (x y : List ℕ) (rest : List (List ℕ)) (p q : ℕ)
      → p ≡ suc (suc q)
      → node combine (x ∷ y ∷ rest) ms 0 p ≡ node combine rest ms 0 q
  unfolding node
  leaf-skip x y rest p q e = rw e refl

  -- The first level, without the first pair.
  pair-skip :
      (x y : List ℕ) (rest : List (List ℕ)) (pos : ℕ)
      → node combine (x ∷ y ∷ rest) ms 1 (suc pos) ≡ node combine rest ms 1 pos
  pair-skip x y rest pos =
      let all = x ∷ y ∷ rest in
      let left = leaf-skip x y rest (suc pos * 2) (pos * 2) (omega arith) in
      let right = leaf-skip x y rest (suc pos * 2 + 1) (pos * 2 + 1) (omega arith) in
      elim (Bool-cases (has_right combine rest ms 0 pos)) [
        | inl there ↦
            node-both combine all ms 0 (suc pos) (ground arith)
            ∙ ap₂ combine left right
            ∙ sym (node-both combine rest ms 0 pos there)
        | inr missing ↦
            node-left combine all ms 0 (suc pos) (ground arith)
            ∙ ap₂ combine left left
            ∙ sym (node-left combine rest ms 0 pos missing)
      ]

  leaf-parents :
      (xs : List (List ℕ)) (pos : ℕ)
      → pos * 2 < length xs
      → node combine xs ms 1 pos ≡ node combine (parents combine xs) ms 0 pos
  unfolding node
  leaf-parents [] pos b = absurd (omega arith)
  leaf-parents (x ∷ []) zero b = refl
  leaf-parents (x ∷ y ∷ rest) zero b =
      let more : ltb 1 (suc (suc (length rest))) ≡ true = ground arith in rw more refl
  leaf-parents (x ∷ []) (suc pos) b = absurd (omega arith)
  leaf-parents (x ∷ y ∷ rest) (suc pos) b =
      pair-skip x y rest pos ∙ leaf-parents rest pos (omega arith)

  -- A node over the leaves is the node one level lower over their parents.
  node-parents :
      (xs : List (List ℕ)) (h pos : ℕ)
      → pos * 2 * 2 ^ h < length xs
      → node combine xs ms (suc h) pos ≡ node combine (parents combine xs) ms h pos
  node-parents xs zero pos b = leaf-parents xs pos (omega arith)
  node-parents xs (suc h) pos b =
      let double = pow_double h in
      let product : pos * 2 * 2 ^ suc h ≡ pos * 2 * (2 * 2 ^ h) = ap (λ t. pos * 2 * t) double in
      let odd : (pos * 2 + 1) * 2 ^ suc h ≡ (pos * 2 + 1) * (2 * 2 ^ h) =
        ap (λ t. (pos * 2 + 1) * t) double in
      let size = length-parents xs in
      let left = node-parents xs h (pos * 2) (omega arith) in
      elim (Bool-cases (has_right combine xs ms (suc h) pos)) [
        | inl there ↦
            node-both combine xs ms (suc h) pos there
            ∙ ap₂ combine left (node-parents xs h (pos * 2 + 1) (ground arith))
            ∙ sym (node-both combine (parents combine xs) ms h pos (ground arith))
        | inr missing ↦
            node-left combine xs ms (suc h) pos missing
            ∙ ap₂ combine left left
            ∙ sym (node-left combine (parents combine xs) ms h pos (ground arith))
      ]

  -- At the height of the tree, the node is the root of the tree built level by level.
  pub tree_root-node :
      (top fuel : ℕ) (xs : List (List ℕ))
      → length xs ≤ 2 ^ top
      → 2 ^ top < 2 * length xs
      → length xs ≤ fuel
      → tree_root combine fuel xs ≡ some (node combine xs ms top 0)
  unfolding tree_root node
  tree_root-node top fuel [] a b f = absurd (omega arith)
  tree_root-node zero fuel (x ∷ []) a b f = refl
  tree_root-node (suc top) fuel (x ∷ []) a b f =
      let double = pow_double top in let positive = pow_pos top in absurd (omega arith)
  tree_root-node zero fuel (x ∷ y ∷ rest) a b f = absurd (omega arith)
  tree_root-node (suc top) zero (x ∷ y ∷ rest) a b f = absurd (omega arith)
  tree_root-node (suc top) (suc fuel) (x ∷ y ∷ rest) a b f =
      let double = pow_double top in
      let size = length-parents (x ∷ y ∷ rest) in
      tree_root-node top fuel (parents combine (x ∷ y ∷ rest)) (omega arith) (omega arith)
        (omega arith)
      ∙ ap some (sym (node-parents (x ∷ y ∷ rest) top 0 (omega arith)))

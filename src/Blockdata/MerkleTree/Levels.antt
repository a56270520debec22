-- ===== src/Blockdata/MerkleTree/Levels.antt =====
-- The Merkle root of bitcoin/src/merkle_tree/mod.rs is the one of the tree built level by level.
use rust_riecoin.Base.{
  ℕ, zero, suc, ◌+◌, ◌*◌, ◌≤◌, ◌<◌, ◌≡◌, ◌↔◌, refl, sym, ap, ◌∙◌, Option, none, some, List, [], ◌∷◌,
  ◌++◌, append_assoc, append-nil, length, length-append, arith,
}
use rust_riecoin.Blockdata.MerkleTree.{push_leaves, finish, close, calculate_root}
use rust_riecoin.Blockdata.MerkleTree.Stacks.{
  pair_with, pair_off, stack_of, carry-stack_of, closed, root_of,
}
use rust_riecoin.Blockdata.MerkleTree.Root.{stack_of-nil, start, start-stack_of}

module _ {A : Type 0} (combine : A → A → A) where
  -- The level above: neighbours in pairs, a last node without a partner with itself.
  abbrev pub parents : List A → List A
  parents [] = []
  parents (x ∷ []) = combine x x ∷ []
  parents (x ∷ y ∷ rest) = combine x y ∷ parents rest

  -- Level by level until one node is left; `none` for no leaves.
  unfoldable pub tree_root : ℕ → List A → Option A
  tree_root fuel [] = none
  tree_root fuel (x ∷ []) = some x
  tree_root zero (x ∷ y ∷ rest) = none
  tree_root (suc fuel) (x ∷ y ∷ rest) = tree_root fuel (parents (x ∷ y ∷ rest))

  abbrev rev : List A → List A
  rev [] = []
  rev (x ∷ xs) = rev xs ++ x ∷ []

  length-rev : (xs : List A) → length (rev xs) ≡ length xs
  length-rev [] = refl
  length-rev (x ∷ xs) = omega (arith, length-rev xs, length-append (rev xs) (x ∷ []))

  pair_with-append :
      (z : A) (p : Option A × List A) (s : List A)
      → pair_with combine z (p.0, p.1 ++ s)
        ≡ ((pair_with combine z p).0, (pair_with combine z p).1 ++ s)
  pair_with-append z (none, ps) s = refl
  pair_with-append z (some y, ps) s = refl

  -- The two oldest nodes make the last pair.
  pair_off-oldest :
      (zs : List A) (x y : A)
      → pair_off combine ((zs ++ y ∷ []) ++ x ∷ [])
        ≡ ((pair_off combine zs).0, (pair_off combine zs).1 ++ combine x y ∷ [])
  unfolding pair_off
  pair_off-oldest [] x y = refl
  pair_off-oldest (z ∷ zs) x y =
      ap (pair_with combine z) (pair_off-oldest zs x y)
      ∙ pair_with-append z (pair_off combine zs) (combine x y ∷ [])

  closed-append :
      (p : Option A × List A) (s : List A) → closed combine (p.0, p.1 ++ s) ≡ closed combine p ++ s
  closed-append (none, ps) s = refl
  closed-append (some x, ps) s = refl

  closed-rev : (xs : List A) → closed combine (pair_off combine (rev xs)) ≡ rev (parents xs)
  unfolding pair_off
  closed-rev [] = refl
  closed-rev (x ∷ []) = refl
  closed-rev (x ∷ y ∷ rest) =
      ap (closed combine) (pair_off-oldest (rev rest) x y)
      ∙ closed-append (pair_off combine (rev rest)) (combine x y ∷ [])
      ∙ ap (λ t. t ++ combine x y ∷ []) (closed-rev rest)

  root_of-step :
      (fuel : ℕ) (zs : List A)
      → 1 < length zs
      → root_of combine (suc fuel) zs ≡ root_of combine fuel (closed combine (pair_off combine zs))
  unfolding root_of
  root_of-step fuel [] h = absurd (omega arith)
  root_of-step fuel (x ∷ []) h = absurd (omega arith)
  root_of-step fuel (x ∷ y ∷ zs) h = refl

  length-parents : (xs : List A) → 2 * length (parents xs) ≤ length xs + 1
  length-parents [] = omega arith
  length-parents (x ∷ []) = omega arith
  length-parents (x ∷ y ∷ rest) = omega (arith, length-parents rest)

  root_of-rev :
      (fuel : ℕ) (xs : List A)
      → length xs ≤ fuel
      → root_of combine fuel (rev xs) ≡ tree_root fuel xs
  unfolding root_of tree_root
  root_of-rev fuel [] h = refl
  root_of-rev fuel (x ∷ []) h = refl
  root_of-rev zero (x ∷ y ∷ rest) h = absurd (omega arith)
  root_of-rev (suc fuel) (x ∷ y ∷ rest) h =
      let size = length-rev (x ∷ y ∷ rest) in
      root_of-step fuel (rev (x ∷ y ∷ rest)) (omega arith)
      ∙ ap (root_of combine fuel) (closed-rev (x ∷ y ∷ rest))
      ∙ root_of-rev fuel (parents (x ∷ y ∷ rest)) (omega (arith, length-parents (x ∷ y ∷ rest)))

  -- There is a root for each list of leaves but the empty one.
  tree_root-some :
      (fuel : ℕ) (x : A) (rest : List A)
      → length (x ∷ rest) ≤ fuel
      → (h : A) × (tree_root fuel (x ∷ rest) ≡ some h)
  unfolding tree_root
  tree_root-some fuel x [] k = (x, refl)
  tree_root-some zero x (y ∷ rest) k = absurd (omega arith)
  tree_root-some (suc fuel) x (y ∷ rest) k =
      tree_root-some fuel (combine x y) (parents rest) (omega (arith, length-parents rest))

  push_leaves-stack_of :
      (bound n : ℕ) (older leaves : List A)
      → length older ≡ n
      → n + length leaves < bound
      → push_leaves combine n leaves (stack_of combine bound 0 older)
        ≡ some (stack_of combine bound 0 (rev leaves ++ older))
  unfolding push_leaves
  push_leaves-stack_of bound n older [] e k = refl
  push_leaves-stack_of bound n older (x ∷ leaves) e k =
      rw
        (
          push_leaves,
          carry-stack_of combine n bound 0 n x older e (omega arith) (omega arith),
          append_assoc (rev leaves) (x ∷ []) older,
        )
        (push_leaves-stack_of bound (suc n) (x ∷ older) leaves (omega arith) (omega arith))

  finish-start :
      (s : List (ℕ × A)) {h : A} → start combine s ≡ some h → finish combine s ≡ some (some h)
  unfolding finish
  finish-start [] e = cc
  finish-start (top ∷ s) {h} e = let e' : close combine top s ≡ some h = e in rw (finish, e') refl

  push_leaves-rev :
      (leaves : List A)
      → push_leaves combine 0 leaves []
        ≡ some (stack_of combine (suc (length leaves)) 0 (rev leaves))
  push_leaves-rev leaves =
      let bound = suc (length leaves) in
      ap (push_leaves combine 0 leaves) (sym (stack_of-nil combine bound 0))
      ∙ push_leaves-stack_of bound 0 [] leaves refl (omega arith)
      ∙ ap (λ nodes. some (stack_of combine bound 0 nodes)) (append-nil (rev leaves))

  start-tree_root :
      (leaves : List A)
      → start combine (stack_of combine (suc (length leaves)) 0 (rev leaves))
        ≡ tree_root (length leaves) leaves
  start-tree_root leaves =
      let size = length-rev leaves in
      start-stack_of combine (length leaves) (suc (length leaves)) 0 (rev leaves) (omega arith)
        (omega arith)
      ∙ root_of-rev (length leaves) leaves (omega arith)

  -- For any way to combine nodes and any list of leaves, calculate_root with its stack ends
  -- without a panic in the root of the tree that is built level by level, where neighbours are
  -- combined and a last node without a neighbour is combined with itself; there is no root exactly
  -- for no leaves.
  pub calculate_root-tree_root :
      (leaves : List A)
      → (calculate_root combine leaves ≡ some (tree_root (length leaves) leaves))
        × ((tree_root (length leaves) leaves ≡ none) ↔ (leaves ≡ []))
  unfolding calculate_root push_leaves finish tree_root
  calculate_root-tree_root [] = (refl, (λ e. refl, λ e. refl))
  calculate_root-tree_root (x ∷ rest) =
      let (h, e) = tree_root-some (length (x ∷ rest)) x rest (omega arith) in
      (
        rw (calculate_root, push_leaves-rev (x ∷ rest), e)
            (finish-start (stack_of combine (suc (length (x ∷ rest))) 0 (rev (x ∷ rest)))
              (start-tree_root (x ∷ rest) ∙ e)),
        (λ none_found. cc, λ empty. cc),
      )

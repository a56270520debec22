-- ===== src/Blockdata/PartialMerkleTree/Shape.antt =====
-- The shape of the tree behind a partial Merkle tree of bitcoin/src/merkle_tree/block.rs: which nodes
-- there are, their hashes, and which are above a match.
use rust_riecoin.Base.{
  ℕ, zero, suc, ◌+◌, ◌-◌, ◌*◌, ◌/◌, ◌%◌, ◌^◌, ◌<◌, ◌≤◌, ◌≡◌, refl, ap, arith, Bool-cases, inl, inr,
  Bool, true, false, ◌||◌, some, List, [], ◌∷◌, ◌++◌, length, ltb, if◌then◌else◌,
}
use native.Mathlib.Nat.{le-div_iff_mul-le, pow-le-pow_right}
use rust_riecoin.Base.Powers.{pow_pos, pow_double}
use rust_riecoin.Blockdata.PartialMerkleTree.{calc_tree_width, calc_hash, scan_matches}
use rust_riecoin.Blockdata.PartialMerkleTree.Slices.{
  get_or, slice, any, matching, get_elem?-below, slice-beyond, any-split, matching-split,
  scan_matches-any, slice-below, matching-none,
}

-- A node is in the tree when its first leaf is.
pub ltb-width :
    (n h pos : ℕ) → n ≤ 2 ^ 31 → h ≤ 31 → ltb pos (calc_tree_width n h) ≡ ltb (pos * 2 ^ h) n
ltb-width n h pos small low =
    let positive = pow_pos h in
    let bound : 2 ^ h ≤ 2 ^ 31 = pow-le-pow_right {n = 2} (omega arith) low in
    let plain : (n + 2 ^ h - 1) % 2 ^ 32 ≡ n + 2 ^ h - 1 = omega arith in
    let (up, down) = le-div_iff_mul-le {k = 2 ^ h} {x = suc pos} {y = n + 2 ^ h - 1} positive in
    elim (Bool-cases (ltb (pos * 2 ^ h) n)) [
      | inl inside ↦
          let there : suc pos ≤ (n + 2 ^ h - 1) / 2 ^ h = down (ground arith) in
          rw (plain, inside) (ground arith)
      | inr outside ↦
          rw (plain, outside)
            (elim (Bool-cases (ltb pos ((n + 2 ^ h - 1) / 2 ^ h))) [
              | inl inside ↦
                  let there : suc pos * 2 ^ h ≤ n + 2 ^ h - 1 = up (ground arith) in
                  absurd (ground arith)
              | inr e ↦ e
            ])
    ]

one_match :
    (x : List ℕ) (i : ℕ) (m : Bool)
    → matching i (x ∷ []) (m ∷ []) ≡ (if m || false then (x, i) ∷ [] else [])
one_match x i true = refl
one_match x i false = refl

module _ (combine : List ℕ → List ℕ → List ℕ) (xs : List (List ℕ)) (ms : List Bool) where
  -- Whether a node of height `suc h` has a right child.
  abbrev pub has_right : ℕ → ℕ → Bool
  has_right h pos = ltb ((pos * 2 + 1) * 2 ^ h) (length xs)

  -- The hash of a node.
  unfoldable pub node : ℕ → ℕ → List ℕ
  node zero pos = get_or [] xs pos
  node (suc h) pos =
      let left = node h (pos * 2) in
      let right = node h (pos * 2 + 1) in combine left (if has_right h pos then right else left)

  pub node-both :
      (h pos : ℕ)
      → has_right h pos ≡ true
      → node (suc h) pos ≡ combine (node h (pos * 2)) (node h (pos * 2 + 1))
  unfolding node
  node-both h pos there = rw there refl

  pub node-left :
      (h pos : ℕ)
      → has_right h pos ≡ false
      → node (suc h) pos ≡ combine (node h (pos * 2)) (node h (pos * 2))
  unfolding node
  node-left h pos missing = rw missing refl

  -- Whether a leaf below a node is matched.
  unfoldable pub mark : ℕ → ℕ → Bool
  mark h pos = any (slice (pos * 2 ^ h) (2 ^ h) ms)

  -- The matched leaves below a node, with their indexes.
  unfoldable pub found : ℕ → ℕ → List (List ℕ × ℕ)
  found h pos =
      matching (pos * 2 ^ h) (slice (pos * 2 ^ h) (2 ^ h) xs) (slice (pos * 2 ^ h) (2 ^ h) ms)

  -- The flags of a node and the nodes below it that are visited.
  unfoldable pub flags : ℕ → ℕ → List Bool
  flags zero pos = mark zero pos ∷ []
  flags (suc h) pos =
      let left = flags h (pos * 2) in
      let right = flags h (pos * 2 + 1) in
      mark (suc h) pos
      ∷ (if mark (suc h) pos then left ++ (if has_right h pos then right else []) else [])

  -- The hashes that are stored for a node.
  unfoldable pub stored : ℕ → ℕ → List (List ℕ)
  stored zero pos = node zero pos ∷ []
  stored (suc h) pos =
      let left = stored h (pos * 2) in
      let right = stored h (pos * 2 + 1) in
      if mark (suc h) pos
      then left ++ (if has_right h pos then right else [])
      else node (suc h) pos ∷ []

  -- The leaves of a node are those of its children.
  halves :
      (h pos : ℕ)
      → (pos * 2 ^ suc h ≡ pos * 2 * 2 ^ h)
        × (2 ^ suc h ≡ 2 ^ h + 2 ^ h)
        × (pos * 2 * 2 ^ h + 2 ^ h ≡ (pos * 2 + 1) * 2 ^ h)
  halves h pos =
      let double = pow_double h in
      let product : pos * 2 ^ suc h ≡ pos * (2 * 2 ^ h) = ap (λ t. pos * t) double in
      (omega arith, omega arith, omega arith)

  pub mark-children : (h pos : ℕ) → mark (suc h) pos ≡ (mark h (pos * 2) || mark h (pos * 2 + 1))
  unfolding mark
  mark-children h pos =
      let (start, size, middle) = halves h pos in
      rw (start, size, ← middle) (any-split ms (2 ^ h) (2 ^ h) (pos * 2 * 2 ^ h))

  pub found-children :
      (h pos : ℕ)
      → length xs ≡ length ms
      → found (suc h) pos ≡ found h (pos * 2) ++ found h (pos * 2 + 1)
  unfolding found
  found-children h pos l =
      let (start, size, middle) = halves h pos in
      rw (start, size, ← middle) (matching-split [] xs ms (2 ^ h) (2 ^ h) (pos * 2 * 2 ^ h) l)

  pub found-none : (h pos : ℕ) → mark h pos ≡ false → found h pos ≡ []
  unfolding mark found
  found-none h pos e =
      matching-none (pos * 2 ^ h) (slice (pos * 2 ^ h) (2 ^ h) xs) (slice (pos * 2 ^ h) (2 ^ h) ms)
        e

  -- There are no leaves below a node outside of the tree.
  pub found-outside : (h pos : ℕ) → length xs ≤ pos * 2 ^ h → found h pos ≡ []
  unfolding found
  found-outside h pos b = rw (slice-beyond xs (pos * 2 ^ h) (2 ^ h) b) refl

  pub found-leaf :
      (pos : ℕ)
      → length xs ≡ length ms
      → pos < length xs
      → found zero pos ≡ (if mark zero pos then (node zero pos, pos) ∷ [] else [])
  unfolding found mark node
  found-leaf pos l b =
      let start : pos * 1 ≡ pos = omega arith in
      rw (start, slice-below [] xs pos 0 b, slice-below false ms pos 0 (omega arith))
        (one_match (get_or [] xs pos) pos (get_or false ms pos))

  pub scan_matches-mark :
      (h pos : ℕ)
      → length xs ≡ length ms
      → scan_matches ms (length xs) (2 ^ h) (pos * 2 ^ h) false ≡ some (mark h pos)
  unfolding mark
  scan_matches-mark h pos l = rw l (scan_matches-any ms (2 ^ h) (pos * 2 ^ h) false)

  -- In the tree, calc_hash does not panic.
  pub calc_hash-node :
      (h pos : ℕ)
      → length xs ≤ 2 ^ 31
      → h ≤ 31
      → pos * 2 ^ h < length xs
      → calc_hash combine (length xs) xs h pos ≡ some (node h pos)
  unfolding calc_hash node
  calc_hash-node zero pos small low b = get_elem?-below [] xs pos (omega arith)
  calc_hash-node (suc h) pos small low b =
      let (start, size, middle) = halves h pos in
      let left = calc_hash-node h (pos * 2) small (omega arith) (omega arith) in
      elim (Bool-cases (has_right h pos)) [
        | inl there ↦
            let right = calc_hash-node h (pos * 2 + 1) small (omega arith) (ground arith) in
            rw (left, ltb-width (length xs) h (pos * 2 + 1) small (omega arith), there, right) refl
        | inr missing ↦
            rw (left, ltb-width (length xs) h (pos * 2 + 1) small (omega arith), missing) refl
      ]

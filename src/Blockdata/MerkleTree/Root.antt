-- ===== src/Blockdata/MerkleTree/Root.antt =====
-- The root of bitcoin/src/merkle_tree/mod.rs, against the tree built level by level.
use rust_riecoin.Base.{
  ℕ, zero, suc, ◌+◌, ◌-◌, ◌*◌, ◌≤◌, ◌<◌, ◌≡◌, true, false, refl, ◌∙◌, Option, none, some, List, [],
  ◌∷◌, length, ltb, ◌==◌, arith,
}
use rust_riecoin.Blockdata.MerkleTree.{raise, close}
use rust_riecoin.Blockdata.MerkleTree.Stacks.{
  push, at_level, pair_with, pair_off, stack_of, count, length-pair_off, closed, root_of,
}

module _ {A : Type 0} (combine : A → A → A) where
  pub stack_of-nil : (bound level : ℕ) → stack_of combine bound level [] ≡ []
  unfolding stack_of pair_off
  stack_of-nil zero level = refl
  stack_of-nil (suc bound) level = rw (stack_of-nil bound (level + 1)) refl

  -- The stack has a top, and it is not below the level.
  abbrev HasTop : ℕ → List (ℕ × A) → Type 0
  HasTop level s = (top : ℕ × A) × (rest : List (ℕ × A)) × (s ≡ top ∷ rest) × (level ≤ top.0)

  top-push :
      (level : ℕ) (p : Option A × List A) (s : List (ℕ × A)) (n : ℕ)
      → count p.0 + 2 * length p.1 ≡ n
      → 0 < n
      → (0 < length p.1 → HasTop (level + 1) s)
      → HasTop level (push (at_level level p.0) s)
  top-push level (some x, ps) s n e pos above = ((level, x), s, refl, omega arith)
  top-push level (none, ps) s n e pos above =
      let (top, rest, same, low) = above (omega arith) in (top, rest, same, omega arith)

  stack_of-HasTop :
      (bound level : ℕ) (nodes : List A)
      → 0 < length nodes
      → length nodes < bound
      → HasTop level (stack_of combine bound level nodes)
  unfolding stack_of
  stack_of-HasTop zero level nodes pos k = absurd (omega arith)
  stack_of-HasTop (suc bound) level nodes pos k =
      let size = length-pair_off combine nodes in
      top-push level (pair_off combine nodes) _ (length nodes) size pos
        (λ pos'. stack_of-HasTop bound (level + 1) (pair_off combine nodes).1 pos' (omega arith))

  -- A node below its partner is combined with itself.
  close-raise :
      (level : ℕ) (r : A) (s : List (ℕ × A))
      → HasTop (level + 1) s
      → close combine (level, r) s ≡ close combine (level + 1, combine r r) s
  unfolding close raise
  close-raise level r s (top, rest, same, low) =
      let gap : top.0 - level ≡ suc (top.0 - (level + 1)) = omega arith in
      let differ : (level == top.0) ≡ false = ground arith in
      let below : ltb level top.0 ≡ true = ground arith in
      rw (same, close, gap, raise, differ, below) refl

  close-same :
      (level : ℕ) (r y : A) (s : List (ℕ × A))
      → close combine (level, r) ((level, y) ∷ s) ≡ close combine (level + 1, combine y r) s
  unfolding close raise
  close-same level r y s =
      let gap : level - level ≡ 0 = omega arith in
      let same : (level == level) ≡ true = ground arith in rw (close, gap, raise, same) refl

  -- One level of closing, when closing the level above is known.
  close-level :
      (fuel bound level n : ℕ) (r : A) (p : Option A × List A)
      → count p.0 + 2 * length p.1 ≡ suc n
      → suc n < suc bound
      → ((r : A)
          → close combine (level + 1, r) (stack_of combine bound (level + 1) p.1)
            ≡ root_of combine fuel (r ∷ p.1))
      → close combine
          (level, r)
          (push (at_level level p.0) (stack_of combine bound (level + 1) p.1))
        ≡ root_of combine fuel (closed combine (pair_with combine r p))
  close-level fuel bound level n r (none, ps) e k above =
      close-raise level r _ (stack_of-HasTop bound (level + 1) ps (omega arith) (omega arith))
      ∙ above (combine r r)
  close-level fuel bound level n r (some y, ps) e k above =
      close-same level r y _ ∙ above (combine y r)

  close-stack_of :
      (fuel bound level : ℕ) (r : A) (nodes : List A)
      → length nodes ≤ fuel
      → length nodes < bound
      → close combine (level, r) (stack_of combine bound level nodes)
        ≡ root_of combine fuel (r ∷ nodes)
  unfolding stack_of root_of pair_off
  close-stack_of fuel zero level r nodes h k = absurd (omega arith)
  close-stack_of fuel (suc bound) level r [] h k =
      rw (stack_of-nil bound (level + 1)) (unfold close in refl)
  close-stack_of zero (suc bound) level r (x ∷ nodes) h k = absurd (omega arith)
  close-stack_of (suc fuel) (suc bound) level r (x ∷ nodes) h k =
      let size = length-pair_off combine (x ∷ nodes) in
      close-level fuel bound level (length nodes) r (pair_off combine (x ∷ nodes)) size
        (omega arith)
        (λ r'.
          close-stack_of fuel bound (level + 1) r' (pair_off combine (x ∷ nodes)).1 (omega arith)
            (omega arith))

  abbrev pub start : List (ℕ × A) → Option A
  start [] = none
  start (top ∷ s) = close combine top s

  start-level :
      (fuel bound level n : ℕ) (p : Option A × List A)
      → count p.0 + 2 * length p.1 ≡ suc (suc n)
      → suc n < bound
      → ((r : A)
          → close combine (level + 1, r) (stack_of combine bound (level + 1) p.1)
            ≡ root_of combine fuel (r ∷ p.1))
      → start (stack_of combine bound (level + 1) p.1) ≡ root_of combine fuel p.1
      → start (push (at_level level p.0) (stack_of combine bound (level + 1) p.1))
        ≡ root_of combine fuel (closed combine p)
  start-level fuel bound level n (none, ps) e k above first = first
  start-level fuel bound level n (some x, ps) e k above first =
      close-raise level x _ (stack_of-HasTop bound (level + 1) ps (omega arith) (omega arith))
      ∙ above (combine x x)

  pub start-stack_of :
      (fuel bound level : ℕ) (nodes : List A)
      → length nodes ≤ fuel
      → length nodes < bound
      → start (stack_of combine bound level nodes) ≡ root_of combine fuel nodes
  unfolding stack_of root_of pair_off close
  start-stack_of fuel zero level nodes h k = absurd (omega arith)
  start-stack_of fuel (suc bound) level [] h k = rw (stack_of-nil bound (level + 1)) refl
  start-stack_of fuel (suc bound) level (x ∷ []) h k = rw (stack_of-nil bound (level + 1)) refl
  start-stack_of zero (suc bound) level (x ∷ y ∷ nodes) h k = absurd (omega arith)
  start-stack_of (suc fuel) (suc bound) level (x ∷ y ∷ nodes) h k =
      let size = length-pair_off combine (x ∷ y ∷ nodes) in
      let pairs = (pair_off combine (x ∷ y ∷ nodes)).1 in
      start-level fuel bound level (length nodes) (pair_off combine (x ∷ y ∷ nodes)) size
        (omega arith)
        (λ r. close-stack_of fuel bound (level + 1) r pairs (omega arith) (omega arith))
        (start-stack_of fuel bound (level + 1) pairs (omega arith) (omega arith))

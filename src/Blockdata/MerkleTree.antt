-- ===== src/Blockdata/MerkleTree.antt =====
-- `MerkleNode::calculate_root` of bitcoin/src/merkle_tree/mod.rs. A node is any type with a `combine`.
-- A stack is a list with its top first; `none` is a panic. The debug assertion is taken as one that
-- is always compiled in.
pub mod Stacks
pub mod Root
pub mod Levels
use rust_riecoin.Base.{
  ℕ, zero, suc, ◌+◌, ◌-◌, ◌/◌, ◌%◌, Option, none, some, List, [], ◌∷◌, ltb, ◌==◌, if◌then◌else◌,
}

module _ {A : Type 0} (combine : A → A → A) where
  -- `while n & 1 == 1`. Each round halves `n`, so that `n` itself is enough fuel.
  unfoldable pub carry : ℕ → ℕ → List (ℕ × A) → Option (List (ℕ × A))
  carry zero n stack = if n % 2 == 1 then none else some stack
  carry (suc fuel) n [] = if n % 2 == 1 then none else some []
  carry (suc fuel) n (right ∷ []) = if n % 2 == 1 then none else some (right ∷ [])
  carry (suc fuel) n (right ∷ left ∷ stack) =
      let next = carry fuel (n / 2) ((left.0 + 1, combine left.1 right.1) ∷ stack) in
      if n % 2 == 1 then (if left.0 == right.0 then next else none) else some (right ∷ left ∷ stack)

  -- `for (mut n, leaf) in iter.enumerate()`
  unfoldable pub push_leaves : ℕ → List A → List (ℕ × A) → Option (List (ℕ × A))
  unfolding carry
  push_leaves n [] stack = some stack
  push_leaves n (leaf ∷ rest) stack = elim (carry n n ((0, leaf) ∷ stack)) [
    | none ↦ none
    | some stack' ↦ push_leaves (suc n) rest stack'
  ]

  -- `while right.0 != left.0`: `gap` is how far the level of `right` is below `target`.
  unfoldable pub raise : ℕ → ℕ → A → ℕ → Option A
  raise zero level right target = if level == target then some right else none
  raise (suc gap) level right target =
      let next = raise gap (level + 1) (combine right right) target in
      if level == target then some right else if ltb level target then next else none

  -- `while stack.len() > 1`, with the top of the stack apart.
  unfoldable pub close : ℕ × A → List (ℕ × A) → Option A
  unfolding raise
  close right [] = some right.1
  close right (left ∷ stack) = elim (raise (left.0 - right.0) right.0 right.1 left.0) [
    | none ↦ none
    | some node ↦ close (left.0 + 1, combine left.1 node) stack
  ]

  unfoldable pub finish : List (ℕ × A) → Option (Option A)
  unfolding close
  finish [] = some none
  finish (top ∷ stack) = elim (close top stack) [ none ↦ none | some h ↦ some (some h) ]

  -- The leaves as nodes, `Self::from_leaf` applied to each.
  unfoldable pub calculate_root : List A → Option (Option A)
  unfolding push_leaves finish
  calculate_root leaves = elim (push_leaves 0 leaves []) [ none ↦ none | some stack ↦ finish stack ]

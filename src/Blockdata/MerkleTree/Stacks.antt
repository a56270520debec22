-- ===== src/Blockdata/MerkleTree/Stacks.antt =====
-- The stack of bitcoin/src/merkle_tree/mod.rs as the numeral of the number of leaves: the lists of
-- nodes level by level, each with its newest node first.
use rust_riecoin.Base.{
  ℕ, zero, suc, ◌+◌, ◌*◌, ◌/◌, ◌%◌, ◌≤◌, ◌<◌, ◌≡◌, true, false, refl, ap, ◌∙◌, Option, none, some,
  List, [], ◌∷◌, length, ◌==◌, arith,
}
use rust_riecoin.Blockdata.MerkleTree.{carry}

-- The stack with the node that has no partner on top.
abbrev pub push {ℓ} : {B : Type ℓ} → Option B → List B → List B
push none s = s
push (some x) s = x ∷ s

abbrev pub at_level {ℓ} : {B : Type ℓ} → ℕ → Option B → Option (ℕ × B)
at_level l none = none
at_level l (some x) = some (l, x)

abbrev pub count {ℓ} : {B : Type ℓ} → Option B → ℕ
count none = 0
count (some x) = 1

module _ {A : Type 0} (combine : A → A → A) where
  abbrev pub pair_with : A → Option A × List A → Option A × List A
  pair_with x (none, pairs) = (some x, pairs)
  pair_with x (some y, pairs) = (none, combine y x ∷ pairs)

  -- The nodes of one level in pairs, and the newest one when their number is odd.
  unfoldable pub pair_off : List A → Option A × List A
  pair_off [] = (none, [])
  pair_off (x ∷ older) = pair_with x (pair_off older)

  -- The stack that stands for the nodes of a level and those above.
  unfoldable pub stack_of : ℕ → ℕ → List A → List (ℕ × A)
  unfolding pair_off
  stack_of zero level nodes = []
  stack_of (suc fuel) level nodes =
      let rest = stack_of fuel (level + 1) (pair_off nodes).1 in
      push (at_level level (pair_off nodes).0) rest

  length-pair_with :
      (x : A) (p : Option A × List A)
      → count (pair_with x p).0 + 2 * length (pair_with x p).1 ≡ suc (count p.0 + 2 * length p.1)
  length-pair_with x (none, ps) = omega arith
  length-pair_with x (some y, ps) = omega arith

  pub length-pair_off :
      (nodes : List A) → count (pair_off nodes).0 + 2 * length (pair_off nodes).1 ≡ length nodes
  unfolding pair_off
  length-pair_off [] = refl
  length-pair_off (x ∷ older) = length-pair_with x (pair_off older) ∙ ap suc (length-pair_off older)

  carry-even :
      (fuel n : ℕ) (s : List (ℕ × A)) → (n % 2 == 1) ≡ false → carry combine fuel n s ≡ some s
  unfolding carry
  carry-even zero n s e = rw e refl
  carry-even (suc fuel) n [] e = rw e refl
  carry-even (suc fuel) n (right ∷ []) e = rw e refl
  carry-even (suc fuel) n (right ∷ left ∷ s) e = rw e refl

  carry-odd :
      (fuel n level : ℕ) (x y : A) (s : List (ℕ × A))
      → (n % 2 == 1) ≡ true
      → carry combine (suc fuel) n ((level, x) ∷ (level, y) ∷ s)
        ≡ carry combine fuel (n / 2) ((level + 1, combine y x) ∷ s)
  unfolding carry
  carry-odd fuel n level x y s e =
      let same : (level == level) ≡ true = ground arith in rw (e, same) refl

  -- What carrying a node into a level gives, when carrying into the level above is known.
  carry-level :
      (fuel bound level n : ℕ) (x : A) (p : Option A × List A)
      → count p.0 + 2 * length p.1 ≡ n
      → n ≤ fuel
      → n < suc bound
      → ((fuel n : ℕ) (x : A)
          → length p.1 ≡ n
          → n ≤ fuel
          → n < bound
          → carry combine fuel n ((level + 1, x) ∷ stack_of bound (level + 1) p.1)
            ≡ some (stack_of bound (level + 1) (x ∷ p.1)))
      → carry combine fuel n
          ((level, x) ∷ push (at_level level p.0) (stack_of bound (level + 1) p.1))
        ≡ some
            (push (at_level level (pair_with x p).0) (stack_of bound (level + 1) (pair_with x p).1))
  carry-level fuel bound level n x (none, ps) e h k above = carry-even fuel n _ (ground arith)
  carry-level zero bound level n x (some y, ps) e h k above = absurd (omega arith)
  carry-level (suc fuel) bound level n x (some y, ps) e h k above =
      carry-odd fuel n level x y _ (ground arith)
      ∙ above fuel (n / 2) (combine y x) (omega arith) (omega arith) (omega arith)

  -- A leaf is carried into the stack.
  pub carry-stack_of :
      (fuel bound level n : ℕ) (x : A) (older : List A)
      → length older ≡ n
      → n ≤ fuel
      → n < bound
      → carry combine fuel n ((level, x) ∷ stack_of bound level older)
        ≡ some (stack_of bound level (x ∷ older))
  unfolding carry stack_of
  carry-stack_of fuel zero level n x older e h k = absurd (omega arith)
  carry-stack_of fuel (suc bound) level n x older e h k =
      carry-level fuel bound level n x (pair_off older) (length-pair_off older ∙ e) h k
        (λ fuel' n' x' e' h' k'.
          carry-stack_of fuel' bound (level + 1) n' x' (pair_off older).1 e' h' k')

  -- The nodes of the level above, the last one with itself when their number is odd.
  abbrev pub closed : Option A × List A → List A
  closed (none, pairs) = pairs
  closed (some x, pairs) = combine x x ∷ pairs

  -- One level after the other, newest nodes first, until one node is left.
  unfoldable pub root_of : ℕ → List A → Option A
  unfolding pair_off
  root_of fuel [] = none
  root_of fuel (x ∷ []) = some x
  root_of zero (x ∷ y ∷ older) = none
  root_of (suc fuel) (x ∷ y ∷ older) = root_of fuel (closed (pair_off (x ∷ y ∷ older)))

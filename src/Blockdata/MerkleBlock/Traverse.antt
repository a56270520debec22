-- ===== src/Blockdata/MerkleBlock/Traverse.antt =====
-- traverse_and_extract of bitcoin/src/merkle_tree/block.rs on what traverse_and_build stored.
use rust_riecoin.Base.{
  ℕ, zero, suc, ◌+◌, ◌*◌, ◌^◌, ◌<◌, ◌≤◌, ◌≡◌, ◌≢◌, refl, ap, arith, Bool-cases, inl, inr, Bool,
  true, false, some, List, [], ◌∷◌, ◌++◌, length, append_assoc, append-nil, length-append,
  get_elem?, leb, if◌then◌else◌,
}
use rust_riecoin.Blockdata.PartialMerkleTree.{PartialMerkleTree}
use rust_riecoin.Blockdata.PartialMerkleTree.Shape.{
  has_right, node, mark, flags, stored, found, found-leaf, found-none, found-children,
  found-outside,
}
use rust_riecoin.Blockdata.Block.Validate.{eq_bytes}
use rust_riecoin.Blockdata.Block.Root.{eq_bytes_lem}
use rust_riecoin.Blockdata.MerkleBlock.{
  ok, Extraction, next_bit, stored_hash, combine_distinct, traverse_and_extract,
}

get_elem?-append :
    {A : Type 0} (pre : List A) (x : A) (post : List A)
    → get_elem? (pre ++ (x ∷ post)) (length pre) ≡ some x
get_elem?-append [] x post = refl
get_elem?-append (p ∷ pre) x post = get_elem?-append pre x post

-- The next flag or hash stands where the counter points.
more_left :
    {A : Type 0} (pre : List A) (x : A) (post : List A)
    → leb (length (pre ++ (x ∷ post))) (length pre) ≡ false
more_left pre x post = let size = length-append {0} pre (x ∷ post) in ground arith

abbrev pub partial_tree : ℕ → List Bool → List (List ℕ) → PartialMerkleTree
partial_tree n bs hs = record { num_transactions = n; bits = bs; hashes = hs }

abbrev pub state : ℕ → ℕ → List (List ℕ) → List ℕ → Extraction
state u v m i = record { bits_used = u; hash_used = v; matches = m; indexes = i }

pub next_bit_lem :
    (n : ℕ) (bs pre post : List Bool) (b : Bool) (hs : List (List ℕ)) (u v : ℕ) (m : List (List ℕ))
    (i : List ℕ)
    → bs ≡ pre ++ (b ∷ post)
    → u ≡ length pre
    → next_bit (partial_tree n bs hs) (state u v m i) ≡ ok (b, state (u + 1) v m i)
unfolding next_bit
next_bit_lem n bs pre post b hs u v m i e f =
    rw (next_bit, e, f, more_left pre b post, get_elem?-append pre b post) refl

stored_hash_lem :
    (n : ℕ) (bs : List Bool) (hs pre post : List (List ℕ)) (hash : List ℕ) (is_match : Bool)
    (pos u v : ℕ) (m : List (List ℕ)) (i : List ℕ)
    → hs ≡ pre ++ (hash ∷ post)
    → v ≡ length pre
    → stored_hash (partial_tree n bs hs) is_match pos (state u v m i)
      ≡ ok (
        hash,
        if is_match then state u (v + 1) (m ++ hash ∷ []) (i ++ pos ∷ []) else state u (v + 1) m i,
      )
unfolding stored_hash
stored_hash_lem n bs hs pre post hash is_match pos u v m i e f =
    rw (stored_hash, e, f, more_left pre hash post, get_elem?-append pre hash post) refl

pub combine_distinct_lem :
    (combine : List ℕ → List ℕ → List ℕ) (left right : List ℕ) (st : Extraction)
    → right ≢ left
    → combine_distinct combine left (right, st) ≡ ok (combine left right, st)
unfolding combine_distinct
combine_distinct_lem combine left right st n = elim (Bool-cases (eq_bytes right left)) [
  | inl same ↦ absurd (n (eq_bytes_lem right left same))
  | inr differ ↦ rw (combine_distinct, differ) refl
]

same_state :
    {u u' v v' : ℕ} {m m' : List (List ℕ)} {i i' : List ℕ}
    → u ≡ u'
    → v ≡ v'
    → m ≡ m'
    → i ≡ i'
    → state u v m i ≡ state u' v' m' i'
same_state a b c d = cc

-- The matches and their indexes of a list of both.
abbrev pub txids_of : List (List ℕ × ℕ) → List (List ℕ)
txids_of [] = []
txids_of (p ∷ ps) = p.0 ∷ txids_of ps

abbrev pub indexes_of : List (List ℕ × ℕ) → List ℕ
indexes_of [] = []
indexes_of (p ∷ ps) = p.1 ∷ indexes_of ps

txids_of-append : (ps qs : List (List ℕ × ℕ)) → txids_of (ps ++ qs) ≡ txids_of ps ++ txids_of qs
txids_of-append [] qs = refl
txids_of-append (p ∷ ps) qs = ap (λ t. p.0 ∷ t) (txids_of-append ps qs)

indexes_of-append :
    (ps qs : List (List ℕ × ℕ)) → indexes_of (ps ++ qs) ≡ indexes_of ps ++ indexes_of qs
indexes_of-append [] qs = refl
indexes_of-append (p ∷ ps) qs = ap (λ t. p.1 ∷ t) (indexes_of-append ps qs)

module _ (combine : List ℕ → List ℕ → List ℕ) (xs : List (List ℕ)) (ms : List Bool) where
  -- No node has the hash of its neighbour under the same parent.
  abbrev pub SiblingsDiffer : Type 0
  SiblingsDiffer =
      (h pos : ℕ)
      → (pos * 2 + 1) * 2 ^ h < length xs
      → node combine xs ms h (pos * 2 + 1) ≢ node combine xs ms h (pos * 2)

  -- The state after a node was traversed.
  abbrev pub after : ℕ → ℕ → ℕ → ℕ → List (List ℕ) → List ℕ → Extraction
  after h pos u v m i =
      state (u + length (flags combine xs ms h pos)) (v + length (stored combine xs ms h pos))
        (m ++ txids_of (found combine xs ms h pos)) (i ++ indexes_of (found combine xs ms h pos))

  module _ (l : length xs ≡ length ms) (small : length xs ≤ 2 ^ 31)
      (distinct : SiblingsDiffer) where
    pub traverse-leaf :
        (pos : ℕ) (bs pre post : List Bool) (hs preh posth : List (List ℕ)) (u v : ℕ)
        (m : List (List ℕ)) (i : List ℕ)
        → pos * 2 ^ zero < length xs
        → bs ≡ pre ++ (flags combine xs ms zero pos ++ post)
        → hs ≡ preh ++ (stored combine xs ms zero pos ++ posth)
        → u ≡ length pre
        → v ≡ length preh
        → traverse_and_extract combine (partial_tree (length xs) bs hs) zero pos (state u v m i)
          ≡ ok (node combine xs ms zero pos, after zero pos u v m i)
    unfolding traverse_and_extract flags stored
    traverse-leaf pos bs pre post hs preh posth u v m i b eb eh eu ev =
        let leaf = found-leaf combine xs ms pos l (omega arith) in
        rw
          (
            traverse_and_extract,
            next_bit_lem (length xs) bs pre post (mark combine xs ms zero pos) hs u v m i eb eu,
            stored_hash_lem (length xs) bs hs preh posth (node combine xs ms zero pos)
                (mark combine xs ms zero pos) pos (u + 1) v m i eh ev,
            leaf,
          )
          (elim (Bool-cases (mark combine xs ms zero pos)) [
            | inl yes' ↦ rw yes' refl
            | inr no' ↦ rw (no', append-nil m, append-nil i) refl
          ])

    -- Both children of a node, of which the first is traversed in the state `u v m i`.
    pub after_both :
        (h pos u v : ℕ) (m : List (List ℕ)) (i : List ℕ)
        → mark combine xs ms (suc h) pos ≡ true
        → has_right combine xs ms h pos ≡ true
        → state
            (u
              + 1
              + length (flags combine xs ms h (pos * 2))
              + length (flags combine xs ms h (pos * 2 + 1)))
            (v
              + length (stored combine xs ms h (pos * 2))
              + length (stored combine xs ms h (pos * 2 + 1)))
            ((m ++ txids_of (found combine xs ms h (pos * 2)))
              ++ txids_of (found combine xs ms h (pos * 2 + 1)))
            ((i ++ indexes_of (found combine xs ms h (pos * 2)))
              ++ indexes_of (found combine xs ms h (pos * 2 + 1)))
          ≡ after (suc h) pos u v m i
    unfolding flags stored
    after_both h pos u v m i above there =
        let fs =
          length-append (flags combine xs ms h (pos * 2)) (flags combine xs ms h (pos * 2 + 1)) in
        let ss =
          length-append (stored combine xs ms h (pos * 2)) (stored combine xs ms h (pos * 2 + 1)) in
        let ts =
          txids_of-append (found combine xs ms h (pos * 2)) (found combine xs ms h (pos * 2 + 1)) in
        let is =
          indexes_of-append (found combine xs ms h (pos * 2))
            (found combine xs ms h (pos * 2 + 1)) in
        rw (found-children combine xs ms h pos l, above, there, ts, is)
          (same_state (omega arith) (omega arith) (append_assoc m _ _) (append_assoc i _ _))

    -- Only a left child.
    pub after_left :
        (h pos u v : ℕ) (m : List (List ℕ)) (i : List ℕ)
        → mark combine xs ms (suc h) pos ≡ true
        → has_right combine xs ms h pos ≡ false
        → after h (pos * 2) (u + 1) v m i ≡ after (suc h) pos u v m i
    unfolding flags stored
    after_left h pos u v m i above missing =
        let empty = found-outside combine xs ms h (pos * 2 + 1) (ground arith) in
        rw
          (
            found-children combine xs ms h pos l,
            empty,
            above,
            missing,
            append-nil (flags combine xs ms h (pos * 2)),
            append-nil (stored combine xs ms h (pos * 2)),
            append-nil (found combine xs ms h (pos * 2)),
          )
          (same_state (omega arith) refl refl refl)

    pub traverse-stored :
        (h pos : ℕ) (bs pre post : List Bool) (hs preh posth : List (List ℕ)) (u v : ℕ)
        (m : List (List ℕ)) (i : List ℕ)
        → mark combine xs ms (suc h) pos ≡ false
        → bs ≡ pre ++ (flags combine xs ms (suc h) pos ++ post)
        → hs ≡ preh ++ (stored combine xs ms (suc h) pos ++ posth)
        → u ≡ length pre
        → v ≡ length preh
        → traverse_and_extract combine (partial_tree (length xs) bs hs) (suc h) pos (state u v m i)
          ≡ ok (node combine xs ms (suc h) pos, after (suc h) pos u v m i)
    unfolding traverse_and_extract flags stored
    traverse-stored h pos bs pre post hs preh posth u v m i plain eb eh eu ev =
        let eb' : bs ≡ pre ++ (false ∷ post) = rw plain at eb in
        let eh' : hs ≡ preh ++ (node combine xs ms (suc h) pos ∷ posth) = rw plain at eh in
        rw
          (
            traverse_and_extract,
            next_bit_lem (length xs) bs pre post false hs u v m i eb' eu,
            stored_hash_lem (length xs) bs hs preh posth (node combine xs ms (suc h) pos) false pos
                (u + 1) v m i eh' ev,
            found-none combine xs ms (suc h) pos plain,
            plain,
            append-nil m,
            append-nil i,
          )
          refl

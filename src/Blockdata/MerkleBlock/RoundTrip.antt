-- ===== src/Blockdata/MerkleBlock/RoundTrip.antt =====
-- extract_matches of bitcoin/src/merkle_tree/block.rs on what from_txids built.
use rust_riecoin.Base.{
  ℕ, zero, suc, ◌+◌, ◌*◌, ◌^◌, ◌<◌, ◌≤◌, ◌≡◌, refl, sym, ap, ap₂, ◌∙◌, arith, Bool-cases, inl, inr,
  Bool, true, List, [], ◌∷◌, ◌++◌, length, append_assoc, append-nil, length-append, if◌then◌else◌,
}
use rust_riecoin.Base.Powers.{pow_pos, pow_double}
use rust_riecoin.Blockdata.PartialMerkleTree.Slices.{matching, slice-all}
use rust_riecoin.Blockdata.PartialMerkleTree.Shape.{
  ltb-width, has_right, node, mark, flags, stored, found, node-both, node-left,
}
use rust_riecoin.Blockdata.MerkleBlock.{ok, traverse_and_extract}
use rust_riecoin.Blockdata.MerkleBlock.Traverse.{
  partial_tree, state, after, SiblingsDiffer, next_bit_lem, combine_distinct_lem, after_both,
  after_left, traverse-leaf, traverse-stored, txids_of, indexes_of,
}

module _ (combine : List ℕ → List ℕ → List ℕ) (xs : List (List ℕ)) (ms : List Bool) where
  -- What is read of the first child, with what is left after it.
  flags-above :
      (h pos : ℕ)
      → mark combine xs ms (suc h) pos ≡ true
      → flags combine xs ms (suc h) pos
        ≡ true
          ∷ (flags combine xs ms h (pos * 2)
              ++ (if has_right combine xs ms h pos
                  then flags combine xs ms h (pos * 2 + 1)
                  else []))
  unfolding flags
  flags-above h pos above = rw above refl

  stored-above :
      (h pos : ℕ)
      → mark combine xs ms (suc h) pos ≡ true
      → stored combine xs ms (suc h) pos
        ≡ stored combine xs ms h (pos * 2)
          ++ (if has_right combine xs ms h pos then stored combine xs ms h (pos * 2 + 1) else [])
  unfolding stored
  stored-above h pos above = rw above refl

  module _ (l : length xs ≡ length ms) (small : length xs ≤ 2 ^ 31)
      (distinct : SiblingsDiffer combine xs ms) where
    -- The traversal reads what was stored of a node, gives back the hash of the node, and adds the
    -- matched leaves below it.
    pub traverse_and_extract-flags :
        (h pos : ℕ) (bs pre post : List Bool) (hs preh posth : List (List ℕ)) (u v : ℕ)
        (m : List (List ℕ)) (i : List ℕ)
        → h ≤ 31
        → pos * 2 ^ h < length xs
        → bs ≡ pre ++ (flags combine xs ms h pos ++ post)
        → hs ≡ preh ++ (stored combine xs ms h pos ++ posth)
        → u ≡ length pre
        → v ≡ length preh
        → traverse_and_extract combine (partial_tree (length xs) bs hs) h pos (state u v m i)
          ≡ ok (node combine xs ms h pos, after combine xs ms h pos u v m i)
    unfolding traverse_and_extract
    traverse_and_extract-flags zero pos bs pre post hs preh posth u v m i low b eb eh eu ev =
        traverse-leaf combine xs ms l small distinct pos bs pre post hs preh posth u v m i b eb eh
          eu ev
    traverse_and_extract-flags (suc h) pos bs pre post hs preh posth u v m i low b eb eh eu ev =
        let product : pos * 2 ^ suc h ≡ pos * (2 * 2 ^ h) = ap (λ t. pos * t) (pow_double h) in
        let fl = flags combine xs ms h (pos * 2) in
        let sl = stored combine xs ms h (pos * 2) in
        let pre' = pre ++ true ∷ [] in
        let size : u + 1 ≡ length pre' = omega (arith, length-append pre (true ∷ [])) in
        elim (Bool-cases (mark combine xs ms (suc h) pos)) [
          | inr plain ↦
              traverse-stored combine xs ms l small distinct h pos bs pre post hs preh posth u v m i
                plain eb eh eu ev
          | inl above ↦ elim (Bool-cases (has_right combine xs ms h pos)) [
            | inl there ↦
                let fr = flags combine xs ms h (pos * 2 + 1) in
                let sr = stored combine xs ms h (pos * 2 + 1) in
                let eb' : bs ≡ pre ++ (true ∷ ((fl ++ fr) ++ post)) =
                  rw (flags-above h pos above, there) at eb in
                let eh' : hs ≡ preh ++ ((sl ++ sr) ++ posth) =
                  rw (stored-above h pos above, there) at eh in
                let left =
                  traverse_and_extract-flags h (pos * 2) bs pre' (fr ++ post) hs preh (sr ++ posth)
                    (u + 1) v m i (omega arith) (omega arith) (eb' ∙ simp append_assoc)
                    (eh' ∙ simp append_assoc) size ev in
                let right =
                  traverse_and_extract-flags h (pos * 2 + 1) bs (pre' ++ fl) post hs (preh ++ sl)
                    posth (u + 1 + length fl) (v + length sl)
                    (m ++ txids_of (found combine xs ms h (pos * 2)))
                    (i ++ indexes_of (found combine xs ms h (pos * 2))) (omega arith) (ground arith)
                    (eb' ∙ simp append_assoc) (eh' ∙ simp append_assoc)
                    (omega (arith, length-append pre' fl)) (omega (arith, length-append preh sl)) in
                rw
                  (
                    traverse_and_extract,
                    next_bit_lem (length xs) bs pre ((fl ++ fr) ++ post) true hs u v m i eb' eu,
                    left,
                    ltb-width (length xs) h (pos * 2 + 1) small (omega arith),
                    there,
                    right,
                    combine_distinct_lem combine (node combine xs ms h (pos * 2))
                        (node combine xs ms h (pos * 2 + 1)) _ (distinct h pos (ground arith)),
                  )
                  (ap₂ (λ hash st. ok (hash, st)) (sym (node-both combine xs ms h pos there))
                    (after_both combine xs ms l small distinct h pos u v m i above there))
            | inr missing ↦
                let eb' : bs ≡ pre ++ (true ∷ (fl ++ post)) =
                  rw (flags-above h pos above, missing, append-nil fl) at eb in
                let eh' : hs ≡ preh ++ (sl ++ posth) =
                  rw (stored-above h pos above, missing, append-nil sl) at eh in
                let left =
                  traverse_and_extract-flags h (pos * 2) bs pre' post hs preh posth (u + 1) v m i
                    (omega arith) (omega arith) (eb' ∙ simp append_assoc) eh' size ev in
                rw
                  (
                    traverse_and_extract,
                    next_bit_lem (length xs) bs pre (fl ++ post) true hs u v m i eb' eu,
                    left,
                    ltb-width (length xs) h (pos * 2 + 1) small (omega arith),
                    missing,
                  )
                  (ap₂ (λ hash st. ok (hash, st)) (sym (node-left combine xs ms h pos missing))
                    (after_left combine xs ms l small distinct h pos u v m i above missing))
          ]
        ]

  -- A node stores at most one hash for each leaf below it, and at most one for each flag.
  pub stored-count :
      (h pos : ℕ)
      → pos * 2 ^ h < length xs
      → (length (stored combine xs ms h pos) ≤ 2 ^ h)
        × (pos * 2 ^ h + length (stored combine xs ms h pos) ≤ length xs)
        × (length (stored combine xs ms h pos) ≤ length (flags combine xs ms h pos))
        × (length (flags combine xs ms h pos) < 2 * 2 ^ h)
  unfolding stored flags
  stored-count zero pos b = (omega arith, omega arith, omega arith, omega arith)
  stored-count (suc h) pos b =
      let double = pow_double h in
      let product : pos * 2 ^ suc h ≡ pos * (2 * 2 ^ h) = ap (λ t. pos * t) double in
      let positive = pow_pos h in
      elim (Bool-cases (mark combine xs ms (suc h) pos)) [
        | inr plain ↦ rw plain (ground arith, ground arith, ground arith, ground arith)
        | inl above ↦
            let (a, b', c, d) = stored-count h (pos * 2) (omega arith) in
            elim (Bool-cases (has_right combine xs ms h pos)) [
              | inl there ↦
                  let (a', b'', c', d') = stored-count h (pos * 2 + 1) (ground arith) in
                  let fs =
                    length-append (flags combine xs ms h (pos * 2))
                      (flags combine xs ms h (pos * 2 + 1)) in
                  let ss =
                    length-append (stored combine xs ms h (pos * 2))
                      (stored combine xs ms h (pos * 2 + 1)) in
                  rw (above, there) (omega arith, omega arith, omega arith, omega arith)
              | inr missing ↦
                  rw
                    (
                      above,
                      missing,
                      append-nil (flags combine xs ms h (pos * 2)),
                      append-nil (stored combine xs ms h (pos * 2)),
                    )
                    (omega arith, omega arith, omega arith, omega arith)
            ]
      ]

  -- The matched leaves below the root are those of the whole list.
  pub found-all :
      (top : ℕ)
      → length xs ≡ length ms
      → length xs ≤ 2 ^ top
      → found combine xs ms top 0 ≡ matching 0 xs ms
  unfolding found
  found-all top l b =
      let start : 0 * 2 ^ top ≡ 0 = omega arith in
      rw start (
        ap₂ (λ us vs. matching 0 us vs) (slice-all xs (2 ^ top) b)
          (slice-all ms (2 ^ top) (omega arith)))

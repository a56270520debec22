-- ===== src/Blockdata/PartialMerkleTree.antt =====
-- Partial Merkle trees of bitcoin/src/merkle_tree/block.rs. `none` and `panic` are panics; a node is
-- its bytes.
pub mod Slices
pub mod Shape
pub mod Build
pub mod Height
pub mod Encoding
use rust_riecoin.Base.{
  ℕ, zero, suc, ◌+◌, ◌-◌, ◌*◌, ◌/◌, ◌%◌, ◌^◌, Bool, true, false, not, ◌||◌, Option, none, some,
  List, [], ◌∷◌, ◌++◌, length, get_elem?, ltb, leb, ◌==◌, if◌then◌else◌,
}
use rust_riecoin.Primitives.Block.{Header}
use rust_riecoin.Blockdata.Block.Validate.{eq_bytes}

pub record PartialMerkleTree : Type 0 where
  pub num_transactions : ℕ
  pub bits : List Bool
  pub hashes : List (List ℕ)

-- `calc_tree_width`, in a `u32`.
abbrev pub calc_tree_width : ℕ → ℕ → ℕ
calc_tree_width num_transactions height = (num_transactions + 2 ^ height - 1) % 2 ^ 32 / 2 ^ height

-- The loop of `calc_tree_height`; `none` when the fuel is used up.
unfoldable pub height_from : ℕ → ℕ → ℕ → Option ℕ
height_from zero num_transactions height = none
height_from (suc fuel) num_transactions height =
    let rest = height_from fuel num_transactions (suc height) in
    if ltb 1 (calc_tree_width num_transactions height) then rest else some height

unfoldable pub calc_tree_height : ℕ → Option ℕ
calc_tree_height num_transactions = height_from 32 num_transactions 0

-- `parent_of_match |= matches[p]` for at most `count` positions from `p` on.
unfoldable pub scan_matches : List Bool → ℕ → ℕ → ℕ → Bool → Option Bool
scan_matches matches num_transactions zero p parent_of_match = some parent_of_match
scan_matches matches num_transactions (suc count) p parent_of_match =
    let rest : Option Bool = elim (get_elem? matches p) [
      | none ↦ none
      | some m ↦ scan_matches matches num_transactions count (suc p) (parent_of_match || m)
    ] in
    if ltb p num_transactions then rest else some parent_of_match

module _ (combine : List ℕ → List ℕ → List ℕ) where
  unfoldable pub calc_hash : ℕ → List (List ℕ) → ℕ → ℕ → Option (List ℕ)
  calc_hash num_transactions txids zero pos = get_elem? txids pos
  calc_hash num_transactions txids (suc height) pos =
      elim (calc_hash num_transactions txids height (pos * 2)) [
        | none ↦ none
        | some left ↦
            let right : Option (List ℕ) =
              if ltb (pos * 2 + 1) (calc_tree_width num_transactions height)
              then calc_hash num_transactions txids height (pos * 2 + 1)
              else some left in
            elim right [ none ↦ none | some r ↦ some (combine left r) ]
      ]

  -- What a node without children in the partial tree stores.
  unfoldable pub store_hash : List (List ℕ) → ℕ → ℕ → PartialMerkleTree → Option PartialMerkleTree
  store_hash txids height pos pmt = elim (calc_hash pmt.num_transactions txids height pos) [
    | none ↦ none
    | some hash ↦ some (record pmt { hashes = pmt.hashes ++ hash ∷ [] })
  ]

  unfoldable pub traverse_and_build :
      ℕ → ℕ → List (List ℕ) → List Bool → PartialMerkleTree → Option PartialMerkleTree
  traverse_and_build zero pos txids matches pmt =
      elim (scan_matches matches pmt.num_transactions (2 ^ 0) (pos * 2 ^ 0) false) [
        | none ↦ none
        | some parent_of_match ↦
            store_hash txids 0 pos (record pmt { bits = pmt.bits ++ parent_of_match ∷ [] })
      ]
  traverse_and_build (suc height) pos txids matches pmt =
      elim (scan_matches matches pmt.num_transactions (2 ^ suc height) (pos * 2 ^ suc height)
        false) [
          | none ↦ none
          | some false ↦
              store_hash txids (suc height) pos (record pmt { bits = pmt.bits ++ false ∷ [] })
          | some true ↦
              elim (traverse_and_build height (pos * 2) txids matches
                (record pmt { bits = pmt.bits ++ true ∷ [] })) [
                  | none ↦ none
                  | some built ↦
                      if ltb (pos * 2 + 1) (calc_tree_width pmt.num_transactions height)
                      then traverse_and_build height (pos * 2 + 1) txids matches built
                      else some built
                ]
        ]

  unfoldable pub from_txids : List (List ℕ) → List Bool → Option PartialMerkleTree
  from_txids txids matches =
      let pmt : PartialMerkleTree = record {
        num_transactions = length txids % 2 ^ 32;
        bits = [];
        hashes = [];
      } in
      let built : Option PartialMerkleTree = elim (calc_tree_height pmt.num_transactions) [
        | none ↦ none
        | some height ↦ traverse_and_build height 0 txids matches pmt
      ] in
      if length txids == 0
      then none
      else if not (length txids == length matches)
      then none
      else built

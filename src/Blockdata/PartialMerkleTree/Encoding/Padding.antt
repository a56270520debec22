-- ===== src/Blockdata/PartialMerkleTree/Encoding/Padding.antt =====
-- The last byte of the flags of a partial Merkle tree of bitcoin/src/merkle_tree/block.rs is filled
-- up with unset flags.
use rust_riecoin.Base.{
  ℕ, zero, suc, ◌+◌, ◌-◌, ◌*◌, ◌/◌, ◌<◌, ◌≤◌, ◌≡◌, refl, ap, ap₂, arith, Bool-cases, inl, inr, Bool,
  false, List, [], ◌∷◌, ◌++◌, length, take, drop, replicate, length-drop, length-append,
  length-replicate, ltb, if◌then◌else◌,
}
use rust_riecoin.Consensus.Io.{◌⊕◌, emit_compact_size}
use rust_riecoin.Consensus.Vec.{max_vec_size, encode_items}
use rust_riecoin.Blockdata.PartialMerkleTree.Encoding.{set_flags, chunk, chunks, flag_bits}
use rust_riecoin.Blockdata.PartialMerkleTree.Encoding.Chunks.{number, set_flags-number}
use rust_riecoin.Blockdata.PartialMerkleTree.Encoding.Exact.{IsFlags}

module _ {A : Type 0} where
  take-longer : (n : ℕ) (xs zs : List A) → n ≤ length xs → take n (xs ++ zs) ≡ take n xs
  take-longer zero [] zs h = refl
  take-longer zero (x ∷ xs) zs h = refl
  take-longer (suc n) [] zs h = absurd (omega arith)
  take-longer (suc n) (x ∷ xs) zs h = ap (λ t. x ∷ t) (take-longer n xs zs (omega arith))

  drop-longer : (n : ℕ) (xs zs : List A) → n ≤ length xs → drop n (xs ++ zs) ≡ drop n xs ++ zs
  drop-longer zero xs zs h = refl
  drop-longer (suc n) [] zs h = absurd (omega arith)
  drop-longer (suc n) (x ∷ xs) zs h = drop-longer n xs zs (omega arith)

  take-whole : (n : ℕ) (xs : List A) → length xs ≤ n → take n xs ≡ xs
  take-whole zero [] h = refl
  take-whole (suc n) [] h = refl
  take-whole zero (x ∷ xs) h = absurd (omega arith)
  take-whole (suc n) (x ∷ xs) h = ap (λ t. x ∷ t) (take-whole n xs (omega arith))

  drop-whole : (n : ℕ) (xs : List A) → length xs ≤ n → drop n xs ≡ []
  drop-whole zero [] h = refl
  drop-whole (suc n) [] h = refl
  drop-whole zero (x ∷ xs) h = absurd (omega arith)
  drop-whole (suc n) (x ∷ xs) h = drop-whole n xs (omega arith)

number-padded : (n : ℕ) (bs : List Bool) → number (bs ++ replicate n false) ≡ number bs
number-padded zero [] = refl
number-padded (suc n) [] = omega (arith, number-padded n [])
number-padded n (b ∷ bs) = ap (λ t. (if b then 1 else 0) + 2 * t) (number-padded n bs)

byte-padded : (n : ℕ) (bs : List Bool) → set_flags 0 0 (bs ++ replicate n false) ≡ set_flags 0 0 bs
byte-padded n bs = omega (
  arith,
  set_flags-number 0 0 (bs ++ replicate n false),
  set_flags-number 0 0 bs,
  number-padded n bs,
)

-- The number of unset flags behind these.
abbrev pub padding : List Bool → ℕ
padding bs = 8 * ((length bs + 7) / 8) - length bs

abbrev pub padded : List Bool → List Bool
padded bs = bs ++ replicate (padding bs) false

encode_items-padded :
    (fuel fuel' n : ℕ) (bs : List Bool)
    → length bs ≤ fuel
    → length bs + n ≤ fuel'
    → length bs + n ≡ 8 * ((length bs + 7) / 8)
    → encode_items chunk (chunks fuel' (bs ++ replicate n false))
      ≡ encode_items chunk (chunks fuel bs)
unfolding chunks encode_items
encode_items-padded fuel fuel' zero [] h k e = refl
encode_items-padded fuel fuel' (suc n) [] h k e = absurd (omega arith)
encode_items-padded zero fuel' n (b ∷ bs) h k e = absurd (omega arith)
encode_items-padded (suc fuel) zero n (b ∷ bs) h k e = absurd (omega arith)
encode_items-padded (suc fuel) (suc fuel') n (b ∷ bs) h k e =
    let zs = replicate n false in
    let size = length-drop 7 bs in
    elim (Bool-cases (ltb (length bs) 7)) [
      | inr full ↦
          let enough : 7 ≤ length bs = ground arith in
          rw
            (
              take-longer 7 bs zs enough,
              drop-longer 7 bs zs enough,
              encode_items-padded fuel fuel' n (drop 7 bs) (omega arith) (omega arith)
                  (omega arith),
            )
            refl
      | inl short ↦
          let few : length bs < 7 = ground arith in
          let joined = length-append bs zs in
          let unset = length-replicate n false in
          rw
            (
              take-whole 7 (bs ++ zs) (omega arith),
              drop-whole 7 (bs ++ zs) (omega arith),
              take-whole 7 bs (omega arith),
              drop-whole 7 bs (omega arith),
              byte-padded n (b ∷ bs),
            )
            refl
    ]

-- Flags are written like those with the padding.
pub flag_bits-padded :
    (bs : List Bool) → flag_bits.consensus_encode (padded bs) ≡ flag_bits.consensus_encode bs
flag_bits-padded bs =
    let joined = length-append bs (replicate (padding bs) false) in
    let unset = length-replicate (padding bs) false in
    let whole : (length (padded bs) + 7) / 8 ≡ (length bs + 7) / 8 = omega arith in
    ap₂ (λ n w. emit_compact_size n ⊕ w) whole
      (encode_items-padded (length bs) (length (padded bs)) (padding bs) bs (omega arith)
        (omega arith) (omega arith))

pub padded-IsFlags : (bs : List Bool) → length bs ≤ 8 * max_vec_size → IsFlags (padded bs)
padded-IsFlags bs h =
    let joined = length-append bs (replicate (padding bs) false) in
    let unset = length-replicate (padding bs) false in (omega arith, omega arith)

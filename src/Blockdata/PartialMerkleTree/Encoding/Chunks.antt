-- ===== src/Blockdata/PartialMerkleTree/Encoding/Chunks.antt =====
-- The bytes that hold the flags of a partial Merkle tree of bitcoin/src/merkle_tree/block.rs.
use rust_riecoin.Base.{
  ℕ, zero, suc, ◌+◌, ◌*◌, ◌/◌, ◌%◌, ◌^◌, ◌<◌, ◌≤◌, ◌≡◌, refl, sym, ap, ap₂, ◌∙◌, arith, Bool, List,
  [], ◌∷◌, ◌++◌, length, drop, take-append-drop, length-take, length-drop, take-append, drop-append,
  length-append, All, ◌==◌, if◌then◌else◌,
}
use native.Mathlib.Nat.{div-div-eq-div-mul}
use rust_riecoin.Base.Powers.{pow_double}
use rust_riecoin.Consensus.Result.{ok, >>=-eq-ok, >>=-ne-panic, ok-subst}
use rust_riecoin.Consensus.Io.{read_u8}
use rust_riecoin.Consensus.Codec.{IsExact}
use rust_riecoin.Consensus.Codec.Fixed.{u8, u8-IsExact}
use rust_riecoin.Blockdata.PartialMerkleTree.Encoding.{set_flags, get_flags, chunk, chunks, concat}

-- The number with these bits, the lowest first.
abbrev pub number : List Bool → ℕ
number [] = 0
number (b ∷ bs) = (if b then 1 else 0) + 2 * number bs

number-lt : (bs : List Bool) → number bs < 2 ^ length bs
number-lt [] = omega arith
number-lt (b ∷ bs) = let double = pow_double (length bs) in let rest = number-lt bs in ground arith

pub set_flags-number :
    (i byte : ℕ) (bs : List Bool) → set_flags i byte bs ≡ byte + 2 ^ i * number bs
unfolding set_flags
set_flags-number i byte [] = omega arith
set_flags-number i byte (b ∷ bs) =
    let double = pow_double i in
    let rest = set_flags-number (suc i) (byte + (if b then 1 else 0) * 2 ^ i) bs in
    let spread : 2 ^ suc i * number bs ≡ 2 * 2 ^ i * number bs = ap (λ t. t * number bs) double in
    ground arith

halved : (i byte : ℕ) → byte / 2 ^ suc i ≡ byte / 2 ^ i / 2
halved i byte =
    let double : 2 ^ suc i ≡ 2 ^ i * 2 = omega (arith, pow_double i) in
    rw (double, ← div-div-eq-div-mul byte (2 ^ i) 2) refl

get_flags-number :
    (bs : List Bool) (i byte : ℕ) → byte / 2 ^ i ≡ number bs → get_flags (length bs) i byte ≡ bs
unfolding get_flags
get_flags-number [] i byte e = refl
get_flags-number (b ∷ bs) i byte e =
    let high : byte / 2 ^ suc i ≡ number bs = rw (halved i byte, e) (ground arith) in
    let bit : (byte / 2 ^ i % 2 == 1) ≡ b = rw e (ground arith) in
    ap₂ (λ x xs. x ∷ xs) bit (get_flags-number bs (suc i) byte high)

abbrev pub IsChunk : List Bool → Type 0
IsChunk flags = length flags ≡ 8

chunk_byte : (flags : List Bool) → set_flags 0 0 flags ≡ number flags
chunk_byte flags = omega (arith, set_flags-number 0 0 flags)

-- Eight flags are read back from their byte.
get_flags-set_flags :
    (flags : List Bool) → IsChunk flags → get_flags 8 0 (set_flags 0 0 flags) ≡ flags
get_flags-set_flags flags e =
    let whole = get_flags-number flags 0 (set_flags 0 0 flags) (omega (arith, chunk_byte flags)) in
    rw e at whole

length-get_flags : (count i byte : ℕ) → length (get_flags count i byte) ≡ count
unfolding get_flags
length-get_flags zero i byte = refl
length-get_flags (suc count) i byte = ap suc (length-get_flags count (suc i) byte)

number-get_flags :
    (count i byte : ℕ) → byte / 2 ^ i < 2 ^ count → number (get_flags count i byte) ≡ byte / 2 ^ i
unfolding get_flags
number-get_flags zero i byte h = omega arith
number-get_flags (suc count) i byte h =
    let wide = pow_double count in
    let next = halved i byte in
    let rest = number-get_flags count (suc i) byte (omega arith) in ground arith

-- A byte is the one of its flags.
set_flags-get_flags : (byte : ℕ) → byte < 256 → set_flags 0 0 (get_flags 8 0 byte) ≡ byte
set_flags-get_flags byte low =
    chunk_byte (get_flags 8 0 byte) ∙ omega (arith, number-get_flags 8 0 byte (omega arith))

pub chunk-IsExact : IsExact chunk IsChunk
chunk-IsExact = record {
  counts = λ flags e. refl;
  decode-encode =
      λ flags rest e. unfold read_u8 in ap (λ t. ok (t, rest)) (get_flags-set_flags flags e);
  encode-decode = λ r flags rest low e.
      let (p, e₁, e₂) = >>=-eq-ok (u8.consensus_decode_from_finite_reader r) _ e in
      let (byte, split) = u8-IsExact.encode-decode r p.0 p.1 low e₁ in
      ok-subst (λ flags rest. IsChunk flags × (r ≡ (chunk.consensus_encode flags).bytes ++ rest)) e₂
        (length-get_flags 8 0 p.0, split ∙ ap (λ t. t ∷ p.1) (sym (set_flags-get_flags p.0 byte)));
  never_panics = λ r.
      >>=-ne-panic (u8.consensus_decode_from_finite_reader r) _ (u8-IsExact.never_panics r)
        (λ x e h. cc);
}

-- What `chunks` cuts is all of it, in as many chunks as there are bytes.
pub concat-chunks : (fuel : ℕ) (bs : List Bool) → length bs ≤ fuel → concat (chunks fuel bs) ≡ bs
unfolding chunks
concat-chunks fuel [] h = refl
concat-chunks zero (b ∷ bs) h = absurd (omega arith)
concat-chunks (suc fuel) (b ∷ bs) h =
    let size = length-drop 7 bs in
    rw (concat-chunks fuel (drop 7 bs) (omega arith)) (ap (λ t. b ∷ t) (take-append-drop 7 bs))

pub chunks-concat :
    (cs : List (List Bool)) (fuel : ℕ)
    → All IsChunk cs
    → length (concat cs) ≤ fuel
    → chunks fuel (concat cs) ≡ cs
unfolding chunks
chunks-concat [] fuel h b = refl
chunks-concat ([] ∷ cs) fuel (e, h) b = absurd (omega arith)
chunks-concat ((f ∷ c) ∷ cs) zero (e, h) b = absurd (omega arith)
chunks-concat ((f ∷ c) ∷ cs) (suc fuel) (e, h) b =
    let size = length-append c (concat cs) in
    rw
      (
        take-append 7 c (concat cs) (omega arith),
        drop-append 7 c (concat cs) (omega arith),
        chunks-concat cs fuel h (omega arith),
      )
      refl

pub length-concat : (cs : List (List Bool)) → All IsChunk cs → length (concat cs) ≡ 8 * length cs
length-concat [] h = omega arith
length-concat (c ∷ cs) (e, h) = omega (arith, length-append c (concat cs), length-concat cs h)

-- Whole chunks when their number divides.
pub chunks-IsChunk :
    (k fuel : ℕ) (bs : List Bool)
    → length bs ≡ 8 * k
    → k ≤ fuel
    → All IsChunk (chunks fuel bs) × (length (chunks fuel bs) ≡ k)
unfolding chunks
chunks-IsChunk zero fuel [] e h = (tt, refl)
chunks-IsChunk (suc k) fuel [] e h = absurd (omega arith)
chunks-IsChunk zero fuel (b ∷ bs) e h = absurd (omega arith)
chunks-IsChunk (suc k) zero (b ∷ bs) e h = absurd (omega arith)
chunks-IsChunk (suc k) (suc fuel) (b ∷ bs) e h =
    let taken = length-take 7 bs in
    let size = length-drop 7 bs in
    let (all, count) = chunks-IsChunk k fuel (drop 7 bs) (omega arith) (omega arith) in
    ((omega arith, all), ap suc count)

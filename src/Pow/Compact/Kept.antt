-- ===== src/Pow/Compact/Kept.antt =====
-- What a compact target keeps of a target, of bitcoin/src/pow.rs.
use rust_riecoin.Base.{
  ℕ, zero, suc, ◌+◌, ◌-◌, ◌*◌, ◌/◌, ◌%◌, ◌^◌, ◌<◌, ◌≤◌, ◌≡◌, refl, ap, ap₂, ◌∙◌, arith, Bool-cases,
  inl, inr, false, if◌then◌else◌, ◌==◌, leb, ◌⊎◌,
}
use rust_riecoin.Base.Powers.{pow_split}
use native.Mathlib.Nat.{mul-le-mul_right, div-mul-le_self, div-div-eq-div-mul}
use rust_riecoin.Pow.U256.Laws.{value, IsU256, value-lt}
use rust_riecoin.Pow.Division.{bits}
use rust_riecoin.Pow.Division.Bits.{bits-zero}
use rust_riecoin.Pow.Target.{Target}
use rust_riecoin.Pow.Compact.{from_compact, leading_bytes, to_compact_lossy}
use rust_riecoin.Pow.Compact.Laws.{
  byte_size, leading_bytes-large, packed-value, packed_small-value, leading_bytes-small,
}

-- What the compact form of a target keeps: all but `k` low bits, and at least the first 16 bits.
abbrev pub Keeps : ℕ → ℕ → Type 0
Keeps v kept = (k : ℕ) × (kept ≡ v / 2 ^ k * 2 ^ k) × ((k ≡ 0) ⊎ (2 ^ (15 + k) ≤ v))

large-Keeps :
    (v c size : ℕ)
    → v < 2 ^ 256
    → 3 < size
    → size ≤ 32
    → c ≡ v / 2 ^ (8 * (size - 3))
    → c < 2 ^ 24
    → 2 ^ (8 * size) ≤ 256 * v
    → Keeps v (
        value
          (from_compact (
            if c / 2 ^ 23 % 2 == 1
            then c / 2 ^ 8 + (size + 1) * 2 ^ 24
            else c + size * 2 ^ 24)).inner)
large-Keeps v c size top l s e h full = elim (Bool-cases (c / 2 ^ 23 % 2 == 1)) [
  | inl signed ↦
      let k = 8 * (size - 3) in
      let moved : 8 * (size + 1 - 3) ≡ 8 + k = omega arith in
      let joined : 2 ^ k * 2 ^ 8 ≡ 2 ^ (8 + k) = omega (arith, pow_split 8 k) in
      let shorter : c / 2 ^ 8 ≡ v / 2 ^ (8 + k) =
        ap (λ t. t / 2 ^ 8) e ∙ div-div-eq-div-mul v (2 ^ k) (2 ^ 8) ∙ ap (λ t. v / t) joined in
      let product : c / 2 ^ 8 * 2 ^ (8 * (size + 1 - 3)) ≡ v / 2 ^ (8 + k) * 2 ^ (8 + k) =
        ap₂ (λ m n. m * 2 ^ n) shorter moved in
      let bound = div-mul-le_self v (2 ^ (8 + k)) in
      let below = div-mul-le_self v (2 ^ k) in
      let same : c * 2 ^ k ≡ v / 2 ^ k * 2 ^ k = ap (λ t. t * 2 ^ k) e in
      let high : 2 ^ 23 ≤ c = ground arith in
      let least : 2 ^ 23 * 2 ^ k ≤ c * 2 ^ k = mul-le-mul_right (2 ^ k) high in
      let flat : 15 + (8 + k) ≡ 23 + k = omega arith in
      let first : 2 ^ (15 + (8 + k)) ≤ v =
        (rw flat (omega (arith, pow_split 23 k, least, same, below))) in
      rw signed (
        8 + k,
        packed-value (c / 2 ^ 8) (size + 1) (omega arith) (omega arith) (omega arith)
              (omega (arith, product, bound))
            ∙ product,
        inr first,
      )
  | inr plain ↦
      let k = 8 * (size - 3) in
      let bound = div-mul-le_self v (2 ^ k) in
      let same : c * 2 ^ k ≡ v / 2 ^ k * 2 ^ k = ap (λ t. t * 2 ^ k) e in
      let whole : 2 ^ (8 * size) ≡ 2 ^ 24 * 2 ^ k =
        (let d : 8 * size ≡ 24 + k = omega arith in ap (λ t. 2 ^ t) d ∙ pow_split 24 k) in
      rw plain (
        k,
        packed-value c size (ground arith) l (omega arith) (omega (arith, same, bound)) ∙ same,
        inr (omega (arith, pow_split 15 k, whole)),
      )
]

-- The word of a number of `size` bytes from its first three bytes `c`.
abbrev pack : ℕ → ℕ → ℕ
pack c size = if c / 2 ^ 23 % 2 == 1 then c / 2 ^ 8 + (size + 1) * 2 ^ 24 else c + size * 2 ^ 24

-- Numbers of at most three bytes, moved to the top of them.
abbrev SmallKeeps : ℕ → Type 0
SmallKeeps size =
    (v : ℕ)
    → v < 2 ^ (8 * size)
    → Keeps v (value (from_compact (pack (v * 2 ^ (8 * (3 - size))) size)).inner)

exact :
    (v m size : ℕ)
    → m < 2 ^ 23
    → size ≤ 3
    → m / 2 ^ (8 * (3 - size)) ≡ v
    → Keeps v (value (from_compact (m + size * 2 ^ 24)).inner)
exact v m size h s e = (0, packed_small-value m size h s ∙ e ∙ omega arith, inl refl)

keeps_none : SmallKeeps 0
keeps_none v h =
    let plain : (v * 2 ^ 24 / 2 ^ 23 % 2 == 1) ≡ false = ground arith in
    rw plain (exact v (v * 2 ^ 24) 0 (omega arith) (omega arith) (omega arith))

keeps_one : SmallKeeps 1
keeps_one v h = elim (Bool-cases (v * 2 ^ 16 / 2 ^ 23 % 2 == 1)) [
  | inl signed ↦
      rw signed (exact v (v * 2 ^ 16 / 2 ^ 8) 2 (omega arith) (omega arith) (omega arith))
  | inr plain ↦ rw plain (exact v (v * 2 ^ 16) 1 (ground arith) (omega arith) (omega arith))
]

keeps_two : SmallKeeps 2
keeps_two v h = elim (Bool-cases (v * 2 ^ 8 / 2 ^ 23 % 2 == 1)) [
  | inl signed ↦ rw signed (exact v (v * 2 ^ 8 / 2 ^ 8) 3 (omega arith) (omega arith) (omega arith))
  | inr plain ↦ rw plain (exact v (v * 2 ^ 8) 2 (ground arith) (omega arith) (omega arith))
]

keeps_three : SmallKeeps 3
keeps_three v h = elim (Bool-cases (v * 1 / 2 ^ 23 % 2 == 1)) [
  | inl signed ↦
      let high : 2 ^ 23 ≤ v = ground arith in
      let byte : v * 1 / 2 ^ 8 ≡ v / 2 ^ 8 = omega arith in
      rw signed (
        8,
        packed-value (v * 1 / 2 ^ 8) 4 (omega arith) (omega arith) (omega arith) (omega arith)
            ∙ omega arith,
        inr high,
      )
  | inr plain ↦ rw plain (exact v (v * 1) 3 (ground arith) (omega arith) (omega arith))
]

small-Keeps : (size : ℕ) → size ≤ 3 → SmallKeeps size
small-Keeps zero h = keeps_none
small-Keeps (suc zero) h = keeps_one
small-Keeps (suc (suc zero)) h = keeps_two
small-Keeps (suc (suc (suc zero))) h = keeps_three
small-Keeps (suc (suc (suc (suc n)))) h = absurd (omega arith)

-- The compact form of a target below 2^256 is read back as the target with some number of its low
-- bits set to 0: with none, or with so many that at least the first 16 bits of the target are
-- kept.
pub to_compact_lossy-Keeps :
    (t : Target)
    → IsU256 t.inner
    → Keeps (value t.inner) (value (from_compact (to_compact_lossy t)).inner)
unfolding to_compact_lossy
to_compact_lossy-Keeps t v =
    let x = t.inner in
    let size = (bits x + 7) / 8 in
    let (top, most, full) = byte_size x v in
    elim (Bool-cases (leb size 3)) [
      | inl few ↦
          rw (leading_bytes-small x size (ground arith) top)
            (small-Keeps size (ground arith) (value x) top)
      | inr many ↦
          let long : 3 < size = ground arith in
          let (first, bound) = leading_bytes-large x size v long most top in
          let positive : 0 < value x = elim (Bool-cases (value x == 0)) [
            | inl z ↦ absurd (let e = bits-zero x (ground arith) in omega arith)
            | inr nz ↦ ground arith
          ] in
          large-Keeps (value x) (leading_bytes x size) size (value-lt x v) long most first
            (omega (arith, first, bound)) (full positive)
    ]

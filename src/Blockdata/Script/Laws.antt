-- ===== src/Blockdata/Script/Laws.antt =====
-- Which scripts bitcoin/src/address/script_pubkey.rs has a script code for, and which one.
use rust_riecoin.Base.{
  ℕ, ◌≡◌, refl, ap₂, drop, none, if◌then◌else◌, ◌∙◌, ◌↔◌, Bool, true, false, some, List, [], ◌∷◌,
  ◌++◌, length, arith,
}
use rust_riecoin.Blockdata.Script.{
  from_opcode, witness_version, is_p2wpkh, push_slice, script_code, p2wpkh_script_code,
}

is_p2wpkh_iff :
    (a b : ℕ) (rest : List ℕ)
    → (is_p2wpkh (a ∷ b ∷ rest) ≡ true) ↔ ((a ≡ 0) × (b ≡ 20) × (length rest ≡ 20))
unfolding is_p2wpkh witness_version from_opcode
is_p2wpkh_iff a b rest = ground arith

-- The script code of a hash, byte by byte.
abbrev spelled : List ℕ → List ℕ
spelled hash = 0x76 ∷ 0xa9 ∷ 0x14 ∷ hash ++ 0x88 ∷ 0xac ∷ []

script_code-eq : (hash : List ℕ) → length hash ≡ 20 → script_code hash ≡ spelled hash
unfolding script_code push_slice
script_code-eq hash size = rw size refl

-- A script pays to a key hash in the form of SegWit.
abbrev IsP2wpkh : List ℕ → List ℕ → Type 0
IsP2wpkh script code =
    (hash : List ℕ) × (length hash ≡ 20) × (script ≡ 0x00 ∷ 0x14 ∷ hash) × (code ≡ spelled hash)

chosen :
    (b : Bool) {x code : List ℕ}
    → (if b then some x else none) ≡ some code
    → (b ≡ true) × (code ≡ x)
chosen true e = (refl, cc)
chosen false e = cc

known :
    (script code : List ℕ)
    → is_p2wpkh script ≡ true
    → code ≡ script_code (drop 2 script)
    → IsP2wpkh script code
known [] code h e = absurd (unfold is_p2wpkh in cc)
known (a ∷ []) code h e = absurd (unfold is_p2wpkh in cc)
known (a ∷ b ∷ rest) code h e =
    let (x, y, size) = (is_p2wpkh_iff a b rest).0 h in
    (rest, size, ap₂ (λ u v. u ∷ v ∷ rest) x y, e ∙ script_code-eq rest size)

-- A script has a P2WPKH script code exactly if it is the bytes 00 14 and a hash of 20 bytes, and
-- the code is then 76 a9 14, the hash, 88 ac.
pub p2wpkh_script_code-eq-some :
    (script code : List ℕ)
    → (p2wpkh_script_code script ≡ some code) ↔ (
        (hash : List ℕ) × (length hash ≡ 20)
        × (script ≡ 0x00 ∷ 0x14 ∷ hash)
        × (code ≡ 0x76 ∷ 0xa9 ∷ 0x14 ∷ hash ++ 0x88 ∷ 0xac ∷ []))
unfolding p2wpkh_script_code
p2wpkh_script_code-eq-some script code = (
  λ e. let (h, same) = chosen (is_p2wpkh script) e in known script code h same,
  λ (hash, size, shape, spelt).
      rw (shape, spelt, (is_p2wpkh_iff 0 20 hash).1 (refl, refl, size), script_code-eq hash size)
        refl,
)

-- ===== src/Pow/U256/Digits.antt =====
-- The bytes of the 256-bit integers of bitcoin/src/pow.rs.
use rust_riecoin.Base.{
  ℕ, zero, suc, ◌+◌, ◌*◌, ◌^◌, ◌≡◌, refl, sym, List, [], ◌∷◌, take, drop, length, length-take,
  length-drop, take-append, drop-append, arith, ◌≤◌,
}
use rust_riecoin.Base.Bytes as Bytes
use rust_riecoin.Base.Bytes.{AreBytes, from_le_bytes-lt, length-to_le_bytes}
use rust_riecoin.Pow.U256.{U256, from_le_bytes, to_le_bytes}
use rust_riecoin.Pow.U256.Laws.{value, IsU256}
use native.Mathlib.Nat.{pow-suc}

take-drop-value :
    (k : ℕ) (bs : List ℕ)
    → k ≤ length bs
    → Bytes.from_le_bytes (take k bs) + 256 ^ k * Bytes.from_le_bytes (drop k bs)
      ≡ Bytes.from_le_bytes bs
unfolding Bytes.from_le_bytes
take-drop-value zero bs h = omega arith
take-drop-value (suc k) [] h = absurd (omega arith)
take-drop-value (suc k) (b ∷ bs) h =
    let rest = take-drop-value k bs (omega arith) in rw (pow-suc 256 k) (omega arith)

take-AreBytes : (k : ℕ) (bs : List ℕ) → AreBytes bs → AreBytes (take k bs)
take-AreBytes zero bs h = tt
take-AreBytes (suc k) [] h = tt
take-AreBytes (suc k) (b ∷ bs) (p, h) = (p, take-AreBytes k bs h)

drop-AreBytes : (k : ℕ) (bs : List ℕ) → AreBytes bs → AreBytes (drop k bs)
drop-AreBytes zero bs h = h
drop-AreBytes (suc k) [] h = tt
drop-AreBytes (suc k) (b ∷ bs) (p, h) = drop-AreBytes k bs h

-- An array of 32 bytes is read as the number whose digits they are, the lowest first.
pub from_le_bytes-value :
    (a : List ℕ)
    → AreBytes a
    → length a ≡ 32
    → (value (from_le_bytes a) ≡ Bytes.from_le_bytes a) × IsU256 (from_le_bytes a)
unfolding from_le_bytes value
from_le_bytes-value a h n =
    let halves = take-drop-value 16 a (omega arith) in
    let high = from_le_bytes-lt (drop 16 a) (drop-AreBytes 16 a h) in
    let low = from_le_bytes-lt (take 16 a) (take-AreBytes 16 a h) in
    let high_size : length (drop 16 a) ≡ 16 = omega (arith, length-drop 16 a, n) in
    let low_size : length (take 16 a) ≡ 16 = omega (arith, length-take 16 a, n) in
    (omega arith, (rw high_size at high, rw low_size at low))

-- The bytes of a number are read back as the number.
from_le_bytes-to_le_bytes : (x : U256) → IsU256 x → from_le_bytes (to_le_bytes x) ≡ x
unfolding from_le_bytes to_le_bytes
from_le_bytes-to_le_bytes x h =
    rw
      (
        take-append 16 (Bytes.to_le_bytes 16 x.low) (Bytes.to_le_bytes 16 x.high)
            (sym (length-to_le_bytes 16 x.low)),
        drop-append 16 (Bytes.to_le_bytes 16 x.low) (Bytes.to_le_bytes 16 x.high)
            (sym (length-to_le_bytes 16 x.low)),
        Bytes.from_le_bytes-to_le_bytes 16 x.low (omega arith),
        Bytes.from_le_bytes-to_le_bytes 16 x.high (omega arith),
      )
      refl

-- ===== src/Consensus/Io/Laws.antt =====
-- Reading back what was written, and what a successful read says of its input.
use rust_riecoin.Base.{
  ℕ, ◌%◌, ◌^◌, ◌≤◌, ◌<◌, ◌≡◌, ◌≢◌, sym, subst, List, [], ◌∷◌, ◌++◌, length, arith, length-append,
  take-append, drop-append, take-append-drop, length-take, All-append_left,
}
use rust_riecoin.Base.Bytes.{
  to_le_bytes, length-to_le_bytes, from_le_bytes-to_le_bytes, AreBytes, IsByte, from_le_bytes-lt,
  to_le_bytes-from_le_bytes,
}
use rust_riecoin.Internals.CompactSize.{encode}
use rust_riecoin.Consensus.Result.{ok, panic, >>=-eq-ok, >>=-ne-panic}
use rust_riecoin.Consensus.Io.{
  Reader, read_exact, read_int, read_u8, read_minimal, read_compact_size,
}

pub read_exact-append :
    (n : ℕ) (xs rest : List ℕ) → n ≡ length xs → read_exact n (xs ++ rest) ≡ ok (xs, rest)
unfolding read_exact
read_exact-append n xs rest h =
    rw (take-append n xs rest h, drop-append n xs rest h) (ground (arith, length-append xs rest))

pub read_exact-eq-ok :
    (n : ℕ) (r : Reader) {xs rest : List ℕ}
    → read_exact n r ≡ ok (xs, rest)
    → (r ≡ xs ++ rest) × (length xs ≡ n)
unfolding read_exact
read_exact-eq-ok n r h = ground (arith, take-append-drop n r, length-take n r)

pub read_exact-ne-panic : (n : ℕ) (r : Reader) → read_exact n r ≢ panic
unfolding read_exact
read_exact-ne-panic n r = ground arith

pub read_int-append :
    (k v : ℕ) (rest : List ℕ) → v < 256 ^ k → read_int k (to_le_bytes k v ++ rest) ≡ ok (v, rest)
unfolding read_int
read_int-append k v rest h = rw (
  read_exact-append k (to_le_bytes k v) rest (sym (length-to_le_bytes k v)),
  from_le_bytes-to_le_bytes k v h,
)

pub read_int-eq-ok :
    (k : ℕ) (r : Reader) {v : ℕ} {rest : List ℕ}
    → AreBytes r
    → read_int k r ≡ ok (v, rest)
    → (r ≡ to_le_bytes k v ++ rest) × (v < 256 ^ k)
unfolding read_int
read_int-eq-ok k r bytes h =
    let (p, e, h') = >>=-eq-ok (read_exact k r) _ h in
    let (split, size) = read_exact-eq-ok k r e in
    let low = All-append_left IsByte p.0 p.1 (subst AreBytes split bytes) in
    ground (arith, to_le_bytes-from_le_bytes k p.0 low size, from_le_bytes-lt p.0 low)

pub read_int-ne-panic : (k : ℕ) (r : Reader) → read_int k r ≢ panic
unfolding read_int
read_int-ne-panic k r = >>=-ne-panic (read_exact k r) _ (read_exact-ne-panic k r) (λ a e p. cc)

pub read_u8-eq-ok :
    (r : Reader) {b : ℕ} {rest : List ℕ}
    → AreBytes r
    → read_u8 r ≡ ok (b, rest)
    → (r ≡ b ∷ rest) × (b < 256)
unfolding read_u8
read_u8-eq-ok [] bytes h = cc
read_u8-eq-ok (b ∷ r) bytes h = ground arith

pub read_u8-ne-panic : (r : Reader) → read_u8 r ≢ panic
unfolding read_u8
read_u8-ne-panic [] p = cc
read_u8-ne-panic (b ∷ r) p = cc

read_minimal-append :
    (k least v : ℕ) (rest : List ℕ)
    → v < 256 ^ k
    → least ≤ v
    → read_minimal k least (to_le_bytes k v ++ rest) ≡ ok (v, rest)
unfolding read_minimal
read_minimal-append k least v rest h wide = rw (read_int-append k v rest h) (ground arith)

read_minimal-eq-ok :
    (k least : ℕ) (r : Reader) {v : ℕ} {rest : List ℕ}
    → AreBytes r
    → read_minimal k least r ≡ ok (v, rest)
    → (r ≡ to_le_bytes k v ++ rest) × (v < 256 ^ k) × (least ≤ v)
unfolding read_minimal
read_minimal-eq-ok k least r bytes h =
    let (p, e, h') = >>=-eq-ok (read_int k r) _ h in ground (arith, read_int-eq-ok k r bytes e)

read_minimal-ne-panic : (k least : ℕ) (r : Reader) → read_minimal k least r ≢ panic
unfolding read_minimal
read_minimal-ne-panic k least r =
    >>=-ne-panic (read_int k r) _ (read_int-ne-panic k r) (λ a e. ground arith)

-- A value below 2^64 is read back from its compact size, whatever follows it.
pub read_compact_size-encode :
    (v : ℕ) (rest : List ℕ) → v < 2 ^ 64 → read_compact_size (encode v ++ rest) ≡ ok (v, rest)
unfolding read_compact_size read_u8 encode
read_compact_size-encode v rest h = ground (
  arith,
  read_minimal-append 2 0xfd (v % 2 ^ 16) rest,
  read_minimal-append 4 0x1_0000 (v % 2 ^ 32) rest,
  read_minimal-append 8 0x1_0000_0000 v rest,
)

-- On bytes, what read_compact_size reads is what encode writes of that value, and the value is
-- below 2^64: a longer form of the same number is refused.
pub read_compact_size-eq-ok :
    (r : Reader) {v : ℕ} {rest : List ℕ}
    → AreBytes r
    → read_compact_size r ≡ ok (v, rest)
    → (r ≡ encode v ++ rest) × (v < 2 ^ 64)
unfolding read_compact_size read_u8 encode
read_compact_size-eq-ok [] bytes h = cc
read_compact_size-eq-ok (n ∷ r) {v} {rest} (byte, bytes) h = ground (
  arith,
  read_minimal-eq-ok 8 0x1_0000_0000 r {v = v} {rest = rest} bytes,
  read_minimal-eq-ok 4 0x1_0000 r {v = v} {rest = rest} bytes,
  read_minimal-eq-ok 2 0xfd r {v = v} {rest = rest} bytes,
)

pub read_compact_size-ne-panic : (r : Reader) → read_compact_size r ≢ panic
unfolding read_compact_size read_u8
read_compact_size-ne-panic [] = λ p. cc
read_compact_size-ne-panic (n ∷ r) = ground (
  arith,
  read_minimal-ne-panic 8 0x1_0000_0000 r,
  read_minimal-ne-panic 4 0x1_0000 r,
  read_minimal-ne-panic 2 0xfd r,
)

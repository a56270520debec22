-- ===== src/Internals/CompactSize/RoundTrip.antt =====
-- What `encode` writes, and that `decode_unchecked` reads it back.
use rust_riecoin.Base.{
  ℕ, ◌-◌, ◌%◌, ◌^◌, ◌≤◌, ◌<◌, suc, ◌≡◌, Bool, some, List, ◌∷◌, ◌++◌, length, arith, length-append,
  take-append, drop-append,
}
use rust_riecoin.Base.Bytes.{
  to_le_bytes, length-to_le_bytes, from_le_bytes-to_le_bytes, AreBytes, to_le_bytes-AreBytes,
}
use rust_riecoin.Internals.CompactSize.{
  encoded_size, encode, decode_sized, decode_unchecked, max_encoding_size,
}

-- encoded_size is the number of bytes that encode writes, at least 1 and at most
-- MAX_ENCODING_SIZE.
pub length-encode :
    (v : ℕ)
    → (length (encode v) ≡ encoded_size v)
      × (1 ≤ encoded_size v)
      × (encoded_size v ≤ max_encoding_size)
unfolding encode encoded_size
length-encode v = ground (
  arith,
  length-to_le_bytes 2 (v % 2 ^ 16),
  length-to_le_bytes 4 (v % 2 ^ 32),
  length-to_le_bytes 8 v,
)

pub encode-AreBytes : (v : ℕ) → AreBytes (encode v)
unfolding encode
encode-AreBytes v = ground (
  arith,
  to_le_bytes-AreBytes 2 (v % 2 ^ 16),
  to_le_bytes-AreBytes 4 (v % 2 ^ 32),
  to_le_bytes-AreBytes 8 v,
)

-- `decode_sized` on a prefix byte and `k` bytes of a value that is not below the least one.
decode_sized-append :
    (debug : Bool) (p k least v : ℕ) (rest : List ℕ)
    → v < 256 ^ k
    → least ≤ v
    → decode_sized debug (suc k) least (p ∷ (to_le_bytes k v ++ rest)) ≡ some (v, rest)
unfolding decode_sized
decode_sized-append debug p k least v rest fits wide =
    let e : suc k - 1 ≡ k = omega arith in
    rw
      (
        e,
        take-append k (to_le_bytes k v) rest (omega (arith, length-to_le_bytes k v)),
        drop-append k (to_le_bytes k v) rest (omega (arith, length-to_le_bytes k v)),
        from_le_bytes-to_le_bytes k v fits,
      )
      (ground (arith, length-append (to_le_bytes k v) rest, length-to_le_bytes k v))

-- What encode writes of a value below 2^64, whatever follows it, decode_unchecked reads back
-- without a panic, in debug and in release mode.
pub decode_unchecked-encode :
    (debug : Bool) (v : ℕ) (rest : List ℕ)
    → v < 2 ^ 64
    → decode_unchecked debug (encode v ++ rest) ≡ some (v, rest)
unfolding encode decode_unchecked
decode_unchecked-encode debug v rest h = ground (
  arith,
  decode_sized-append debug 0xfd 2 0xfd (v % 2 ^ 16) rest,
  decode_sized-append debug 0xfe 4 0x1_0000 (v % 2 ^ 32) rest,
  decode_sized-append debug 0xff 8 0x1_0000_0000 v rest,
)

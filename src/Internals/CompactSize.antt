-- ===== src/Internals/CompactSize.antt =====
-- internals/src/compact_size.rs: the variable length integer that precedes every sequence.
-- A `u64` or `usize` is a native number below 2^64. An `ArrayVec` is its contents; `none` stands for
-- a panic.
pub mod RoundTrip
use rust_riecoin.Base.{
  ℕ, ◌-◌, ◌%◌, ◌^◌, ◌<◌, Bool, ◌&&◌, not, Option, none, some, List, [], ◌∷◌, ◌++◌, ltb, leb, ◌==◌,
  if◌then◌else◌, length, take, drop,
}
use rust_riecoin.Base.Bytes.{to_le_bytes, from_le_bytes}

abbrev pub max_encodable_value : ℕ
max_encodable_value = 0x0200_0000

abbrev pub max_encoding_size : ℕ
max_encoding_size = 9

unfoldable pub encoded_size_const : ℕ → ℕ
encoded_size_const value =
    if leb value 0xfc
    then 1
    else if leb value 0xffff
    then 3
    else if leb value 0xffff_ffff
    then 5
    else 9

-- `value.to_u64()` is the identity on the integers of the model.
unfoldable pub encoded_size : ℕ → ℕ
unfolding encoded_size_const
encoded_size value = encoded_size_const value

unfoldable pub encode : ℕ → List ℕ
encode value =
    if leb value 0xfc
    then (value % 2 ^ 8) ∷ []
    else if leb value 0xffff
    then 0xfd ∷ to_le_bytes 2 (value % 2 ^ 16)
    else if leb value 0xffff_ffff
    then 0xfe ∷ to_le_bytes 4 (value % 2 ^ 32)
    else 0xff ∷ to_le_bytes 8 value

-- One arm of `decode_unchecked`: `size` bytes with the prefix, and the least value for which the
-- width is minimal. `debug` says whether `debug_assert!` is compiled in.
unfoldable pub decode_sized : Bool → ℕ → ℕ → List ℕ → Option (ℕ × List ℕ)
decode_sized debug size least slice =
    if ltb (length slice) size
    then none
    else let v = from_le_bytes (take (size - 1) (drop 1 slice)) in
      if debug && ltb v least then none else some (v, drop size slice)

-- The value and the slice moved past the encoding.
unfoldable pub decode_unchecked : Bool → List ℕ → Option (ℕ × List ℕ)
unfolding decode_sized
decode_unchecked debug [] = none
decode_unchecked debug (n ∷ rest) =
    if n == 0xff
    then decode_sized debug 9 0x1_0000_0000 (n ∷ rest)
    else if n == 0xfe
    then decode_sized debug 5 0x1_0000 (n ∷ rest)
    else if n == 0xfd
    then decode_sized debug 3 0xfd (n ∷ rest)
    else some (n, rest)

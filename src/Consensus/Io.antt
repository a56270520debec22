-- ===== src/Consensus/Io.antt =====
-- `WriteExt` and `ReadExt` of bitcoin/src/consensus/encode.rs, on the in-memory writer and reader.
-- A reader is the bytes that are left of its slice.
pub mod Laws
use rust_riecoin.Base.{
  ℕ, suc, ◌+◌, ◌%◌, ◌^◌, Bool, true, false, not, List, [], ◌∷◌, ◌++◌, ltb, ◌==◌, if◌then◌else◌,
  length, take, drop,
}
use rust_riecoin.Base.Bytes.{to_le_bytes, from_le_bytes}
use rust_riecoin.Consensus.Result.{Result, ok, err, ◌>>=◌, map, missing_data, non_minimal_var_int}
use rust_riecoin.Internals.CompactSize.{encode}

abbrev pub Reader : Type 0
Reader = List ℕ

-- What a `consensus_encode` does to its writer: the bytes that it appends, and the number that it
-- returns.
pub record Written : Type 0 where
  pub bytes : List ℕ
  pub len : ℕ

-- Two writes in a row, `len += …`.
infixr 65 ◌⊕◌
abbrev pub ◌⊕◌ : Written → Written → Written
w ⊕ v = record { bytes = w.bytes ++ v.bytes; len = w.len + v.len }

abbrev pub nothing : Written
nothing = record { bytes = []; len = 0 }

-- `write_all` of a fixed number of bytes, and the size that the caller returns.
abbrev pub sized : List ℕ → ℕ → Written
sized bs n = record { bytes = bs; len = n }

abbrev pub emit_u8 : ℕ → List ℕ
emit_u8 v = v ∷ []

-- `encoder_fn!`: the integer's `k` bytes.
abbrev pub emit_int : ℕ → ℕ → List ℕ
emit_int k v = to_le_bytes k v

abbrev pub emit_bool : Bool → List ℕ
emit_bool v = (if v then 1 else 0) ∷ []

abbrev pub emit_slice : List ℕ → Written
emit_slice v = sized v (length v)

unfoldable pub emit_compact_size : ℕ → Written
emit_compact_size v = let encoded = encode v in sized encoded (length encoded)

-- `read_exact` with the error as `From<io::Error>` maps it.
unfoldable pub read_exact : ℕ → Reader → Result (List ℕ × Reader)
read_exact n r = if ltb (length r) n then err missing_data else ok (take n r, drop n r)

-- `decoder_fn!`
unfoldable pub read_int : ℕ → Reader → Result (ℕ × Reader)
read_int k r = do (val, r') ← read_exact k r; ok (from_le_bytes val, r')

unfoldable pub read_u8 : Reader → Result (ℕ × Reader)
read_u8 [] = err missing_data
read_u8 (b ∷ r) = ok (b, r)

-- `read_i8`, and whether it is not zero.
unfoldable pub read_bool : Reader → Result (Bool × Reader)
read_bool r = do (bit, r') ← read_u8 r; ok (not (bit == 0), r')

-- A wide form is refused where a narrower one would have done.
unfoldable pub read_minimal : ℕ → ℕ → Reader → Result (ℕ × Reader)
read_minimal k least r = do
  (x, r') ← read_int k r
  if ltb x least then err non_minimal_var_int else ok (x, r')

unfoldable pub read_compact_size : Reader → Result (ℕ × Reader)
read_compact_size r = do
  (n, r') ← read_u8 r
  if n == 0xff
      then read_minimal 8 0x1_0000_0000 r'
      else if n == 0xfe
      then read_minimal 4 0x1_0000 r'
      else if n == 0xfd
      then read_minimal 2 0xfd r'
      else ok (n, r')

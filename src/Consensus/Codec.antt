-- ===== src/Consensus/Codec.antt =====
-- The traits `Encodable` and `Decodable` of bitcoin/src/consensus/encode.rs, as an interface with its
-- laws, and the fixed-size types that implement them.
pub mod Fixed
pub mod Pair
use rust_riecoin.Base.{ℕ, ◌≡◌, ◌≢◌, List, ◌++◌, length}
use rust_riecoin.Base.Bytes.{AreBytes}
use rust_riecoin.Consensus.Result.{Result, ok, panic}
use rust_riecoin.Consensus.Io.{Reader, Written}

-- `consensus_encode` into a `Vec<u8>`, and `consensus_decode_from_finite_reader` from a slice.
pub record Codec (A : Type 0) : Type 0 where
  pub consensus_encode : A → Written
  pub consensus_decode_from_finite_reader : Reader → Result (A × Reader)

-- What the crate promises of an implementation, on the values for which `IsValid` holds.
pub record IsExact {A : Type 0} (c : Codec A) (IsValid : A → Type 0) : Type 0 where
  -- The number returned is the number of bytes written.
  pub counts :
      (a : A) → IsValid a → (c.consensus_encode a).len ≡ length (c.consensus_encode a).bytes
  -- A value is read back from what was written of it, and nothing behind it is read.
  pub decode-encode :
      (a : A) (rest : List ℕ)
      → IsValid a
      → c.consensus_decode_from_finite_reader ((c.consensus_encode a).bytes ++ rest) ≡ ok (a, rest)
  -- Whatever is read is what would be written: a value has one encoding.
  pub encode-decode :
      (r : Reader) (a : A) (rest : Reader)
      → AreBytes r
      → c.consensus_decode_from_finite_reader r ≡ ok (a, rest)
      → IsValid a × (r ≡ (c.consensus_encode a).bytes ++ rest)
  pub never_panics : (r : Reader) → c.consensus_decode_from_finite_reader r ≢ panic

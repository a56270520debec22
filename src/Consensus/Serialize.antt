-- ===== src/Consensus/Serialize.antt =====
-- `serialize`, `deserialize` and `deserialize_partial` of bitcoin/src/consensus/encode.rs.
pub mod Laws
use rust_riecoin.Base.{
  ℕ, ◌-◌, Bool, not, ◌&&◌, Option, none, some, List, ◌==◌, if◌then◌else◌, length,
}
use rust_riecoin.Consensus.Result.{ParseError, Result, ok, err, panic, ◌>>=◌}
use rust_riecoin.Consensus.Codec.{Codec}

-- `Result<T, DeserializeError>`, with a panic.
pub data Deserialized (A : Type 0) : Type 0 where
  value : A → Deserialized A
  parse : ParseError → Deserialized A
  unconsumed : Deserialized A
  panicked : Deserialized A

module _ {A : Type 0} (c : Codec A) where
  -- `none` is the failure of `debug_assert_eq!(len, encoder.len())`, which `debug` compiles in.
  unfoldable pub serialize : Bool → A → Option (List ℕ)
  serialize debug a =
      let w = c.consensus_encode a in
      if debug && not (w.len == length w.bytes) then none else some w.bytes

  -- The position of the cursor is what the decoder took.
  unfoldable pub deserialize_partial : List ℕ → Result (A × ℕ)
  deserialize_partial input = do
    (rv, rest) ← c.consensus_decode_from_finite_reader input
    ok (rv, length input - length rest)

  -- `deserialize`, when `size` bytes were given.
  unfoldable pub consumed_all : ℕ → Result (A × ℕ) → Deserialized A
  consumed_all size (ok p) = if p.1 == size then value p.0 else unconsumed
  consumed_all size (err e) = parse e
  consumed_all size panic = panicked

  unfoldable pub deserialize : List ℕ → Deserialized A
  unfolding deserialize_partial consumed_all
  deserialize input = consumed_all (length input) (deserialize_partial input)

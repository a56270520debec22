-- ===== src/Tests/Encoding.antt =====
-- Encodings of numbers, sequences, witnesses and transactions.
use rust_riecoin.Base.{
  ℕ, ◌^◌, ◌<◌, ◌≡◌, ◌↔◌, true, some, List, [], ◌∷◌, ◌++◌, if◌then◌else◌, refl, arith,
}
use rust_riecoin.Base.Bytes.{to_le_bytes}
use rust_riecoin.Internals.CompactSize.{encode, decode_unchecked}
use rust_riecoin.Internals.CompactSize.RoundTrip.{decode_unchecked-encode}
use rust_riecoin.Primitives.Buffer.{little}
use rust_riecoin.Primitives.Witness.Layout.{layout}
use rust_riecoin.Primitives.Transaction.{uses_segwit_serialization}
use rust_riecoin.Primitives.Txid.{compute_txid, compute_wtxid}
use rust_riecoin.Consensus.Result.{ok, ◌>>=◌}
use rust_riecoin.Consensus.Io.Laws.{read_compact_size-encode, read_compact_size-eq-ok}
use rust_riecoin.Consensus.Codec.{IsExact}
use rust_riecoin.Consensus.Codec.Fixed.{u32, int-IsExact}
use rust_riecoin.Consensus.Vec.{vec}
use rust_riecoin.Consensus.Vec.Exact.{IsVec, vec-IsExact}
use rust_riecoin.Consensus.Serialize.{value, unconsumed, serialize, deserialize}
use rust_riecoin.Consensus.Serialize.Laws.{deserialize-serialize, deserialize-trailing}
use rust_riecoin.Blockdata.Witness.{witness, IsWitness, consensus_decode}
use rust_riecoin.Blockdata.Witness.Stack.{read_witness}
use rust_riecoin.Blockdata.Witness.Decode.{consensus_decode-read_witness}
use rust_riecoin.Blockdata.Witness.Exact.{witness-IsExact}
use rust_riecoin.Blockdata.Transaction.{encode_transaction, transaction}
use rust_riecoin.Blockdata.Transaction.RoundTrip.{
  IsTransaction, version_bytes, in_bytes, out_bytes, lock_bytes,
}
use rust_riecoin.Blockdata.Transaction.Exact.{transaction-IsExact}
use rust_riecoin.Blockdata.Transaction.Size.{weight}
use rust_riecoin.Blockdata.Transaction.Ids.{ids-encode}
use rust_riecoin.Blockdata.Transaction.Predict.{predict_weight, new}
use rust_riecoin.Blockdata.Transaction.Predict.Laws.{predict_weight-weight}
use rust_riecoin.Tests.Values.{spend, spend-IsTransaction}

decode_unchecked-encode_example :
    decode_unchecked true (encode 253 ++ (0x07 ∷ [])) ≡ some (253, 0x07 ∷ [])
decode_unchecked-encode_example = decode_unchecked-encode true 253 (0x07 ∷ []) (omega arith)

read_compact_size-eq-ok_example :
    ((0xfd ∷ 0xfd ∷ 0x00 ∷ 0x07 ∷ []) ≡ encode 253 ++ (0x07 ∷ [])) × (253 < 2 ^ 64)
unfolding encode to_le_bytes
read_compact_size-eq-ok_example =
    read_compact_size-eq-ok (0xfd ∷ 0xfd ∷ 0x00 ∷ 0x07 ∷ []) (ground arith)
      (read_compact_size-encode 253 (0x07 ∷ []) (omega arith))

vec-IsExact_example : IsExact (vec u32) (IsVec (λ v. v < 256 ^ 4))
vec-IsExact_example = vec-IsExact (int-IsExact 4)

consensus_decode-read_witness_example :
    consensus_decode little (0x01 ∷ 0x02 ∷ 0xaa ∷ 0xbb ∷ 0xcc ∷ [])
    ≡ (read_witness (0x01 ∷ 0x02 ∷ 0xaa ∷ 0xbb ∷ 0xcc ∷ []) >>= λ q. ok (layout little q.0, q.1))
consensus_decode-read_witness_example =
    consensus_decode-read_witness little (0x01 ∷ 0x02 ∷ 0xaa ∷ 0xbb ∷ 0xcc ∷ [])

witness-IsExact_example : IsExact (witness little true) (IsWitness little)
witness-IsExact_example = witness-IsExact little true

transaction-IsExact_example : IsExact (transaction little true) (IsTransaction little)
transaction-IsExact_example = transaction-IsExact little true

abbrev wire : List ℕ
wire = (encode_transaction little true spend).bytes

deserialize-serialize_example :
    (deserialize (vec u32) (0x01 ∷ 0x2a ∷ 0x01 ∷ 0x00 ∷ 0x00 ∷ []) ≡ value (298 ∷ [])) ↔ (
      IsVec (λ v. v < 256 ^ 4) (298 ∷ [])
      × (serialize (vec u32) true (298 ∷ []) ≡ some (0x01 ∷ 0x2a ∷ 0x01 ∷ 0x00 ∷ 0x00 ∷ [])))
deserialize-serialize_example =
    deserialize-serialize (vec-IsExact (int-IsExact 4)) true (0x01 ∷ 0x2a ∷ 0x01 ∷ 0x00 ∷ 0x00 ∷ [])
      (298 ∷ []) (ground arith)

deserialize-trailing_example :
    deserialize (transaction little true) (wire ++ (0x00 ∷ [])) ≡ unconsumed
deserialize-trailing_example =
    deserialize-trailing (transaction-IsExact little true) spend 0x00 [] spend-IsTransaction

ids-encode_example :
    (compute_wtxid little true (λ b. b) spend ≡ some wire)
    × (compute_txid little true (λ b. b) spend
        ≡ some (version_bytes spend ++ (in_bytes spend ++ (out_bytes spend ++ lock_bytes spend))))
    × (compute_wtxid little true (λ b. b) spend ≡ (
        if uses_segwit_serialization spend
        then some wire
        else compute_txid little true (λ b. b) spend))
ids-encode_example = ids-encode little true (λ b. b) spend spend-IsTransaction

predict_weight-weight_example :
    weight little true spend ≡ some (predict_weight (new 0 (2 ∷ 1 ∷ []) ∷ []) (1 ∷ []))
predict_weight-weight_example = predict_weight-weight little true spend spend-IsTransaction refl

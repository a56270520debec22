-- ===== src/Tests/Values.antt =====
-- The values that the examples share.
use rust_riecoin.Base.{ℕ, ◌^◌, ◌-◌, refl, ◌≤◌, List, [], ◌∷◌, length, replicate, arith}
use rust_riecoin.Base.Bytes.{AreBytes, to_le_bytes}
use rust_riecoin.Internals.CompactSize.{encode}
use rust_riecoin.Primitives.Buffer.{little}
use rust_riecoin.Primitives.LockTime.{blocks}
use rust_riecoin.Primitives.Witness.Layout.{elements, layout, IsIndexable}
use rust_riecoin.Primitives.Transaction.{Transaction}
use rust_riecoin.Consensus.Vec.{max_vec_size}
use rust_riecoin.Blockdata.Witness.{IsWitness}
use rust_riecoin.Blockdata.Transaction.RoundTrip.{IsTransaction}

abbrev pub stack : List (List ℕ)
stack = (0x01 ∷ 0x02 ∷ []) ∷ (0x03 ∷ []) ∷ []

pub stack_fits : IsIndexable stack
unfolding encode to_le_bytes
stack_fits = omega arith

pub stack_small : length (elements stack) ≤ max_vec_size
unfolding encode to_le_bytes
stack_small = omega arith

abbrev pub stack-IsWitness : IsWitness little (layout little stack)
stack-IsWitness = record {
  stack = stack;
  laid_out = refl;
  few = omega arith;
  small = stack_small;
  bytes = ((omega arith, (omega arith, tt)), ((omega arith, tt), tt));
}

abbrev pub spend : Transaction
spend = record {
  version = 2;
  lock_time = blocks 840_000;
  input =
      (record {
        previous_output = record { txid = replicate {A = ℕ} 32 0xab; vout = 1 };
        script_sig = [];
        sequence = 2 ^ 32 - 2;
        witness = layout little stack;
      })
      ∷ [];
  output = (record { value = record { sat = 5_000 }; script_pubkey = 0x51 ∷ [] }) ∷ [];
}

pub txid_bytes : AreBytes (replicate {A = ℕ} 32 0xab)
txid_bytes = ground arith

-- A transaction with no input.
abbrev pub burn : Transaction
burn = record spend { input = [] }

pub burn-IsTransaction : IsTransaction little burn
burn-IsTransaction = record {
  version = omega arith;
  lock_time = omega arith;
  input = (omega arith, tt);
  output = (omega arith, ((omega arith, (omega arith, (omega arith, tt))), tt));
}

abbrev pub spend-IsTransaction : IsTransaction little spend
spend-IsTransaction = record {
  version = omega arith;
  lock_time = omega arith;
  input = (
    omega arith,
    (((((refl, txid_bytes), omega arith), ((omega arith, tt), omega arith)), stack-IsWitness), tt),
  );
  output = (omega arith, ((omega arith, (omega arith, (omega arith, tt))), tt));
}

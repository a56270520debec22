-- ===== src/Tests/Pow.antt =====
-- The 256-bit integers and targets at concrete values.
use rust_riecoin.Base.{
  ◌+◌, ◌-◌, ◌*◌, ◌/◌, ◌%◌, ◌^◌, ◌≤◌, ◌≡◌, ◌≢◌, ◌↔◌, ℕ, refl, true, false, ◌&&◌, ltb, leb, ◌==◌,
  if◌then◌else◌, min, max, some, none, List, replicate, arith,
}
use rust_riecoin.Base.Bytes as Bytes
use rust_riecoin.Pow.U256.{
  wrapping_shl, wrapping_shr, U256, overflowing_add, wrapping_add, mul_word, overflowing_sub,
  wrapping_inc, mul_u64,
}
use rust_riecoin.Pow.U256.Laws.{value, IsU256, arithmetic-value}
use rust_riecoin.Pow.U256.Shift.{shift-value}
use rust_riecoin.Pow.Target.{Target, is_met_by}
use rust_riecoin.Primitives.Block.{Header, block_hash}
use rust_riecoin.Pow.Division.{div_rem}
use rust_riecoin.Pow.Division.Laws.{IsQuotient, div_rem_lem}
use rust_riecoin.Pow.Product.{overflowing_mul, mul_round, low_u64}
use rust_riecoin.Pow.Product.Laws.{overflowing_mul-value}
use rust_riecoin.Pow.Work.{inverse, difficulty}
use rust_riecoin.Pow.Work.Laws.{inverse_of, inverse_lem, difficulty_lem}
use rust_riecoin.Pow.Compact.{unpack, from_compact, to_compact_lossy}
use rust_riecoin.Pow.Compact.Laws.{from_compact-value}
use rust_riecoin.Pow.Compact.Kept.{Keeps, to_compact_lossy-Keeps}
use rust_riecoin.Pow.Retarget as Retarget
use rust_riecoin.Pow.Retarget.Laws.{validate_pow_lem}
use rust_riecoin.Pow.Retarget.Headers.{from_header_difficulty_adjustment_lem}

abbrev max_low : U256
max_low = record { high = 3; low = 2 ^ 128 - 1 }

abbrev huge : U256
huge = record { high = 2 ^ 127; low = 7 }

max_low-IsU256 : IsU256 max_low
max_low-IsU256 = (omega arith, omega arith)

huge-IsU256 : IsU256 huge
huge-IsU256 = (omega arith, omega arith)

arithmetic-value_example :
    ((value (overflowing_add max_low huge).0 ≡ (value max_low + value huge) % 2 ^ 256)
      × ((overflowing_add max_low huge).1 ≡ leb (2 ^ 256) (value max_low + value huge))
      × IsU256 (overflowing_add max_low huge).0)
    × ((value (overflowing_sub max_low huge).0 ≡ (value max_low + 2 ^ 256 - value huge) % 2 ^ 256)
        × ((overflowing_sub max_low huge).1 ≡ ltb (value max_low) (value huge))
        × IsU256 (overflowing_sub max_low huge).0)
    × (value (wrapping_inc max_low) ≡ (value max_low + 1) % 2 ^ 256)
arithmetic-value_example = arithmetic-value max_low huge max_low-IsU256 huge-IsU256

carried : wrapping_inc max_low ≡ (record { high = 4; low = 0 })
unfolding wrapping_inc
carried = refl

abbrev target : Target
target = record { inner = huge }

met : is_met_by target (replicate 32 9) ≡ true
unfolding is_met_by Bytes.from_le_bytes
met = refl

shift-value_example :
    (value (wrapping_shl huge 130) ≡ value huge * 2 ^ (130 % 256) % 2 ^ 256)
    × (value (wrapping_shr huge 130) ≡ value huge / 2 ^ (130 % 256))
shift-value_example = shift-value huge 130 huge-IsU256

div_rem_lem_example :
    (q r : U256) × (div_rem huge max_low ≡ some (q, r)) × IsQuotient huge max_low q r
div_rem_lem_example =
    div_rem_lem huge max_low huge-IsU256 max_low-IsU256 (unfold value in omega arith)

overflowing_mul-value_example :
    (value (overflowing_mul max_low huge).0
      ≡ (value max_low * (value huge % 2 ^ 192) + value max_low * (value huge / 2 ^ 192)) % 2 ^ 256)
    × ((ltb (value huge) (2 ^ 192) && (overflowing_mul max_low huge).1) ≡ false)
    × IsU256 (overflowing_mul max_low huge).0
overflowing_mul-value_example = overflowing_mul-value max_low huge max_low-IsU256 huge-IsU256

-- One times 2 ^ 192.
top_word :
    overflowing_mul (record { high = 0; low = 1 }) (record { high = 2 ^ 64; low = 0 })
    ≡ (record { high = 0; low = 1 }, false)
unfolding overflowing_mul mul_round mul_u64 mul_word low_u64 wrapping_add overflowing_add
    wrapping_shl wrapping_shr
top_word = refl

inverse_lem_example :
    (r : U256) × (inverse huge ≡ some r) × (value r ≡ inverse_of (value huge)) × IsU256 r
inverse_lem_example = inverse_lem huge huge-IsU256

difficulty_lem_example : difficulty target target ≡ (
    if value target.inner == 0
    then none
    else some (min (value target.inner / value target.inner) (2 ^ 128 - 1)))
difficulty_lem_example = difficulty_lem target target huge-IsU256 huge-IsU256

to_compact_lossy-Keeps_example :
    Keeps (value target.inner) (value (from_compact (to_compact_lossy target)).inner)
to_compact_lossy-Keeps_example = to_compact_lossy-Keeps target huge-IsU256

-- An exponent of 35 is taken like one of 3.
from_compact-value_example :
    let size = 0x2300_0001 / 2 ^ 24 in
    let digits = 0x2300_0001 % 2 ^ 24 in
    (value (from_compact 0x2300_0001).inner ≡ (
      if leb size 3
      then (if ltb 0x7f_ffff (digits / 2 ^ (8 * (3 - size)))
          then 0
          else digits / 2 ^ (8 * (3 - size)))
      else (if ltb 0x7f_ffff digits then 0 else digits * 2 ^ (8 * (size - 3) % 256) % 2 ^ 256)))
    × IsU256 (from_compact 0x2300_0001).inner
from_compact-value_example = from_compact-value 0x2300_0001 (omega arith)

wrapped : from_compact 0x2300_0001 ≡ (record { inner = record { high = 0; low = 1 } })
unfolding from_compact unpack wrapping_shl
wrapped = refl

abbrev params : Retarget.Params
params = record {
  pow_target_timespan = 14 * 24 * 60 * 60;
  max_attainable_target = record { inner = record { high = 0xffff * 2 ^ 80; low = 0 } };
  no_pow_retargeting = false;
}

abbrev nines : List ℕ → List ℕ
nines bs = replicate 32 9

abbrev head : Header
head = record {
  version = 0x2000_0000;
  prev_blockhash = replicate 32 0;
  merkle_root = replicate 32 1;
  time = 1_700_000_000;
  bits = 0x207f_ffff;
  nonce = 7;
}

validate_pow_lem_example :
    ((Retarget.validate_pow nines head (from_compact 0x207f_ffff) ≡ Retarget.ok (replicate 32 9))
      ↔ ((from_compact head.bits ≡ from_compact 0x207f_ffff)
          × (Bytes.from_le_bytes (block_hash nines head) ≤ value (from_compact 0x207f_ffff).inner)
          × (block_hash nines head ≡ replicate 32 9)))
    × ((Retarget.validate_pow nines head (from_compact 0x207f_ffff)
          ≡ Retarget.err Retarget.bad_target)
        ↔ (from_compact head.bits ≢ from_compact 0x207f_ffff))
validate_pow_lem_example =
    validate_pow_lem nines head (from_compact 0x207f_ffff) (replicate 32 9)
      (λ bytes. (ground arith, refl)) (omega arith)

abbrev boundary : Header
boundary = record head { time = 1_699_000_000 }

abbrev mainnet_bits : Header
mainnet_bits = record head { bits = 0x1d00_ffff }

from_header_difficulty_adjustment_lem_example :
    let previous = value (from_compact mainnet_bits.bits).inner in
    let timespan = params.pow_target_timespan in
    let span = min (max (mainnet_bits.time - boundary.time) (timespan / 4)) (timespan * 4) in
    (required : Target) × (Retarget.from_header_difficulty_adjustment true params boundary
        mainnet_bits
      ≡ some (if params.no_pow_retargeting then mainnet_bits.bits else to_compact_lossy required))
    × (value required.inner
        ≡ min
            (previous * span / timespan)
            (min (previous * 4) (value params.max_attainable_target.inner)))
    × IsU256 required.inner
from_header_difficulty_adjustment_lem_example =
    from_header_difficulty_adjustment_lem true params boundary mainnet_bits
      (omega arith, omega arith) (omega arith) (omega arith) (omega arith)
      (unfold from_compact unpack wrapping_shl value in omega arith)

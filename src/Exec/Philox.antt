-- ===== src/Exec/Philox.antt =====
-- include/exec/philox_rng.hpp: the counter-based generator of the simulation's random draws. `next_unit`
-- and `bernoulli` work in double, and the models compare the bits of a draw instead.
use Prim.Native.Nat.{bit_xor}
use market_microstructure_en.Base.{
  ℕ, zero, suc, ◌+◌, ◌-◌, ◌*◌, ◌/◌, ◌%◌, ◌^◌, leb, ltb, if◌then◌else◌,
}
use market_microstructure_en.Base.Words.{add32, add64, sub64, mul64, u32_mod, shr, low_bits}
pub mod Range

pub data RngStage : Type 0 where
  latency slippage rejection partial_fill queue_share requote : RngStage

abbrev pub stage_id : RngStage → ℕ
stage_id latency = 1
stage_id slippage = 2
stage_id rejection = 3
stage_id partial_fill = 4
stage_id queue_share = 5
stage_id requote = 6

-- `std::array<std::uint32_t, 4>` and `std::array<std::uint32_t, 2>`.
pub record Block : Type 0 where
  pub word0 : ℕ
  pub word1 : ℕ
  pub word2 : ℕ
  pub word3 : ℕ

pub record Key : Type 0 where
  pub key0 : ℕ
  pub key1 : ℕ

abbrev pub rounds : ℕ
rounds = 10

abbrev pub multiplier_0 : ℕ
multiplier_0 = 0xD2511F53

abbrev pub multiplier_1 : ℕ
multiplier_1 = 0xCD9E8D57

abbrev pub weyl_0 : ℕ
weyl_0 = 0x9E3779B9

abbrev pub weyl_1 : ℕ
weyl_1 = 0xBB67AE85

-- The high and the low half of a product.
abbrev pub mul_hi_lo : ℕ → ℕ → ℕ × ℕ
mul_hi_lo a b = (shr (mul64 a b) 32 % u32_mod, low_bits (mul64 a b) 32)

unfoldable pub round_function : Block → Key → Block
round_function counter key =
    let (hi0, lo0) = mul_hi_lo multiplier_0 counter.word0 in
    let (hi1, lo1) = mul_hi_lo multiplier_1 counter.word2 in
    record {
      word0 = bit_xor (bit_xor hi1 counter.word1) key.key0 % u32_mod;
      word1 = lo1;
      word2 = bit_xor (bit_xor hi0 counter.word3) key.key1 % u32_mod;
      word3 = lo0;
    }

-- The loop of `generate_raw`, on the rounds left: the key changes but after the last.
unfoldable pub run_rounds : ℕ → Block → Key → Block
run_rounds zero counter key = counter
run_rounds (suc left) counter key = run_rounds left (round_function counter key) (
    if ltb 0 left
    then record { key0 = add32 key.key0 weyl_0; key1 = add32 key.key1 weyl_1 }
    else key)

unfoldable pub generate_raw : Block → Key → Block
generate_raw counter key = run_rounds rounds counter key

unfoldable pub generate : ℕ → ℕ → ℕ → Block
generate run_seed corr_id stage =
    generate_raw
      (record {
        word0 = low_bits corr_id 32;
        word1 = shr corr_id 32 % u32_mod;
        word2 = stage;
        word3 = 0;
      })
      (record { key0 = low_bits run_seed 32; key1 = shr run_seed 32 % u32_mod })

-- `(words[1] << 32) | words[0]`, whose bits do not overlap.
unfoldable pub next_u64 : ℕ → ℕ → RngStage → ℕ
next_u64 run_seed corr_id stage =
    let words = generate run_seed corr_id (stage_id stage) in words.word1 * 2 ^ 32 + words.word0

unfoldable pub multiply_high : ℕ → ℕ → ℕ
multiply_high a b =
    let ll = mul64 (low_bits a 32) (low_bits b 32) in
    let lh = mul64 (low_bits a 32) (shr b 32) in
    let hl = mul64 (shr a 32) (low_bits b 32) in
    let hh = mul64 (shr a 32) (shr b 32) in
    let carry = shr (add64 (add64 (shr ll 32) (low_bits lh 32)) (low_bits hl 32)) 32 in
    add64 (add64 (add64 hh (shr lh 32)) (shr hl 32)) carry

unfoldable pub next_range : ℕ → ℕ → RngStage → ℕ → ℕ → ℕ
next_range run_seed corr_id stage low high =
    if leb high low
    then low
    else add64 low (multiply_high (next_u64 run_seed corr_id stage) (add64 (sub64 high low) 1))

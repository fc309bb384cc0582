-- ===== src/Exec/Philox/Range.antt =====
-- The generator's draws stay in their range.
use native.Mathlib.Nat.{mul-le-mul_right, mod-eq_of_lt}
use market_microstructure_en.Base.{
  ℕ, zero, suc, ◌+◌, ◌-◌, ◌*◌, ◌/◌, ◌%◌, ◌^◌, ◌≤◌, ◌<◌, ◌≡◌, sym, ap, ◌∙◌, arith, leb, Bool-cases,
  inl, inr,
}
use market_microstructure_en.Base.Words.{add64, sub64, mul64, u32_mod, u64_mod, shr, low_bits}
use market_microstructure_en.Exec.Philox.{
  RngStage, stage_id, Block, Key, round_function, run_rounds, generate_raw, generate, next_u64,
  multiply_high, next_range,
}

-- The product of two half words fits a word.
half_product : (a b : ℕ) → a < u32_mod → b < u32_mod → a * b ≤ (2 ^ 32 - 1) * (2 ^ 32 - 1)
half_product a b ha hb = grind arith

-- The schoolbook product of two numbers of two half words.
schoolbook :
    (ah al bh bl : ℕ)
    → (ah * 2 ^ 32 + al) * (bh * 2 ^ 32 + bl)
      ≡ ah * bh * 2 ^ 64 + (al * bh + ah * bl) * 2 ^ 32 + al * bl
schoolbook ah al bh bl = grind arith

-- The high word, from the four partial products.
high_word :
    (ll lh hl hh : ℕ)
    → hh + lh / 2 ^ 32 + hl / 2 ^ 32 + (ll / 2 ^ 32 + lh % 2 ^ 32 + hl % 2 ^ 32) / 2 ^ 32
      ≡ (hh * 2 ^ 64 + (lh + hl) * 2 ^ 32 + ll) / 2 ^ 64
high_word ll lh hl hh = omega arith

mul64_exact : (a b : ℕ) → a < u32_mod → b < u32_mod → mul64 a b ≡ a * b
mul64_exact a b ha hb = let h = half_product a b ha hb in mod-eq_of_lt (omega arith)

-- No sum of the code wraps around.
sum_exact :
    (ll lh hl hh : ℕ)
    → ll ≤ (2 ^ 32 - 1) * (2 ^ 32 - 1)
    → lh ≤ (2 ^ 32 - 1) * (2 ^ 32 - 1)
    → hl ≤ (2 ^ 32 - 1) * (2 ^ 32 - 1)
    → hh ≤ (2 ^ 32 - 1) * (2 ^ 32 - 1)
    → add64
        (add64 (add64 hh (shr lh 32)) (shr hl 32))
        (shr (add64 (add64 (shr ll 32) (low_bits lh 32)) (low_bits hl 32)) 32)
      ≡ (hh * 2 ^ 64 + (lh + hl) * 2 ^ 32 + ll) / 2 ^ 64
sum_exact ll lh hl hh p q r t = omega arith

-- `multiply_high` is the high word of the exact product, for any two 64-bit numbers.
pub multiply_high_lem : (a b : ℕ) → a < u64_mod → b < u64_mod → multiply_high a b ≡ a * b / 2 ^ 64
unfolding multiply_high
multiply_high_lem a b ha hb =
    rw
      (
        mul64_exact al bl (omega arith) (omega arith),
        mul64_exact al bh (omega arith) (omega arith),
        mul64_exact ah bl (omega arith) (omega arith),
        mul64_exact ah bh (omega arith) (omega arith),
      )
      (sum_exact (al * bl) (al * bh) (ah * bl) (ah * bh)
          (half_product al bl (omega arith) (omega arith))
          (half_product al bh (omega arith) (omega arith))
          (half_product ah bl (omega arith) (omega arith))
          (half_product ah bh (omega arith) (omega arith))
        ∙ ap (λ x. x / 2 ^ 64) (sym (schoolbook ah al bh bl))
        ∙ ap (λ x. x * (bh * 2 ^ 32 + bl) / 2 ^ 64) whole_a
        ∙ ap (λ x. a * x / 2 ^ 64) whole_b)
  where
    ah : ℕ
    ah = a / 2 ^ 32

    al : ℕ
    al = a % 2 ^ 32

    bh : ℕ
    bh = b / 2 ^ 32

    bl : ℕ
    bl = b % 2 ^ 32

    whole_a : ah * 2 ^ 32 + al ≡ a
    whole_a = omega arith

    whole_b : bh * 2 ^ 32 + bl ≡ b
    whole_b = omega arith

-- Scaling a word by a span gives a number below the span.
pub scaled-lt : (a b : ℕ) → a < u64_mod → 0 < b → a * b / 2 ^ 64 < b
scaled-lt a b ha hb =
    let small : a * b ≤ (u64_mod - 1) * b = mul-le-mul_right b (omega arith) in omega arith

Block-small : Block → Type 0
Block-small w = (w.word0 < u32_mod) × (w.word1 < u32_mod)

run_rounds-small :
    (left : ℕ) (counter : Block) (key : Key) → 0 < left → Block-small (run_rounds left counter key)
unfolding run_rounds round_function Block-small
run_rounds-small zero counter key h = absurd (omega arith)
run_rounds-small (suc zero) counter key h = (omega arith, omega arith)
run_rounds-small (suc (suc left)) counter key h = run_rounds-small (suc left) _ _ (omega arith)

generate-small : (run_seed corr_id stage : ℕ) → Block-small (generate run_seed corr_id stage)
unfolding generate generate_raw
generate-small run_seed corr_id stage = run_rounds-small 10 _ _ (omega arith)

pub next_u64-lt :
    (run_seed corr_id : ℕ) (stage : RngStage) → next_u64 run_seed corr_id stage < u64_mod
unfolding next_u64 Block-small
next_u64-lt run_seed corr_id stage =
    let (small0, small1) = generate-small run_seed corr_id (stage_id stage) in omega arith

-- A draw from a range lies in it, the ends included, for any 64-bit range but the one of all words.
pub next_range_bounds :
    (run_seed corr_id : ℕ) (stage : RngStage) (low high : ℕ)
    → low ≤ high
    → high < u64_mod
    → high - low + 1 < u64_mod
    → (low ≤ next_range run_seed corr_id stage low high)
      × (next_range run_seed corr_id stage low high ≤ high)
unfolding next_range
next_range_bounds run_seed corr_id stage low high ordered small proper =
    let draw = next_u64 run_seed corr_id stage in
    let below = next_u64-lt run_seed corr_id stage in
    let span : add64 (sub64 high low) 1 ≡ high - low + 1 = omega arith in
    let high_lem = multiply_high_lem draw (high - low + 1) below proper in
    let scaled = scaled-lt draw (high - low + 1) below (omega arith) in
    elim (Bool-cases (leb high low)) [
      | inl e ↦ rw e (omega arith, ordered)
      | inr e ↦ rw (e, span, high_lem) (ground arith)
    ]

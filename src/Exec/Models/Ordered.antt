-- ===== src/Exec/Models/Ordered.antt =====
-- The simulation modes are ordered: a more pessimistic one never fills earlier or at a better price.
use native.Mathlib.Nat.{mul-le-mul_left}
use market_microstructure_en.Base.{
  ℕ, ◌+◌, ◌*◌, ◌/◌, ◌^◌, ◌≤◌, ◌<◌, ◌≡◌, ◌==◌, refl, arith, leb, leb→le, min, ◌||◌, Bool-cases, inl,
  inr, if◌then◌else◌,
}
use market_microstructure_en.Base.Int.{ℤ, pos, ◌≤ℤ◌, ltb_ℤ, pos_part}
use market_microstructure_en.Base.Words.{add64, sub64, u64_mod}
use market_microstructure_en.Base.Doubles.{round_double, round_double_small}
use market_microstructure_en.Exec.Philox.{RngStage, latency, slippage, next_u64, next_range}
use market_microstructure_en.Exec.Philox.Range.{multiply_high_lem, scaled-lt, next_u64-lt}
use market_microstructure_en.Exec.Models.{
  SimulationMode, optimistic, base, pessimistic, regime_stress, spread_level, slippage_multiplier,
  latency_span_ns, latency_base_ns, sample_ns, sample_ticks,
}

-- A draw from a range that starts at 0.
next_range_zero :
    (run_seed corr_id : ℕ) (stage : RngStage) (high : ℕ)
    → high + 1 < u64_mod
    → next_range run_seed corr_id stage 0 high
      ≡ next_u64 run_seed corr_id stage * (high + 1) / 2 ^ 64
unfolding next_range
next_range_zero run_seed corr_id stage high small =
    let draw = next_u64 run_seed corr_id stage in
    let below = next_u64-lt run_seed corr_id stage in
    let high_lem = multiply_high_lem draw (high + 1) below small in
    let span : add64 (sub64 high 0) 1 ≡ high + 1 = omega arith in
    let scaled = scaled-lt draw (high + 1) below (omega arith) in
    elim (Bool-cases (leb high 0)) [
      | inl e ↦ rw e (omega (arith, leb→le high 0 e))
      | inr e ↦ rw (e, span, high_lem) (omega arith)
    ]

next_range-nothing :
    (run_seed corr_id : ℕ) (stage : RngStage) → next_range run_seed corr_id stage 0 0 ≡ 0
unfolding next_range
next_range-nothing run_seed corr_id stage = refl

next_range_mono :
    (run_seed corr_id : ℕ) (stage : RngStage) (a b : ℕ)
    → a ≤ b
    → b + 1 < u64_mod
    → next_range run_seed corr_id stage 0 a ≤ next_range run_seed corr_id stage 0 b
next_range_mono run_seed corr_id stage a b h small =
    let draw = next_u64 run_seed corr_id stage in
    let more : draw * (a + 1) ≤ draw * (b + 1) = mul-le-mul_left draw (omega arith) in
    rw
      (
        next_range_zero run_seed corr_id stage a (omega arith),
        next_range_zero run_seed corr_id stage b small,
      )
      (omega (arith, more))

abbrev width : ℤ → ℕ
width spread = if ltb_ℤ (pos 0) spread then pos_part spread else 1

-- The ranges that the models draw from.
abbrev slip_cap : SimulationMode → ℤ → ℕ
slip_cap mode spread =
    width spread * (slippage_multiplier mode * min (regime_stress mode spread) 4) / 2

slip_cap_zero :
    (mode : SimulationMode) (spread : ℤ) → slippage_multiplier mode ≡ 0 → slip_cap mode spread ≡ 0
slip_cap_zero optimistic spread h = grind arith
slip_cap_zero base spread h = absurd (omega (arith, h))
slip_cap_zero pessimistic spread h = absurd (omega (arith, h))

-- The tests for an empty range change nothing where the draw from it is 0.
zero_or_draw :
    (m c : ℕ) (f : ℕ → ℕ)
    → f 0 ≡ 0
    → (m ≡ 0 → c ≡ 0)
    → (if m == 0 || c == 0 then pos 0 else pos (f c)) ≡ pos (f c)
zero_or_draw m c f z h = elim (Bool-cases (m == 0 || c == 0)) [
  | inr e ↦ rw e refl
  | inl e ↦ let empty : c ≡ 0 = grind (arith, h) in rw (e, empty, z) refl
]

-- Below 2^50 nothing is rounded.
slip_cap_lem :
    (mode : SimulationMode) (spread : ℤ)
    → pos_part spread < 2 ^ 50
    → round_double (
          round_double (width spread)
          * (slippage_multiplier mode * min (regime_stress mode spread) 4))
        / 2
      ≡ slip_cap mode spread
slip_cap_lem mode spread small =
    let narrow : width spread < 2 ^ 50 = ground arith in
    let scale = slippage_multiplier mode * min (regime_stress mode spread) 4 in
    let wide : width spread * scale ≤ width spread * 8 =
      mul-le-mul_left (width spread) (scale-le mode spread) in
    rw (round_double_small (width spread) (omega arith))
      (rw (round_double_small (width spread * scale) (omega (arith, wide, narrow))) refl)
  where
    scale-le : (m : SimulationMode) (s : ℤ) → slippage_multiplier m * min (regime_stress m s) 4 ≤ 8
    scale-le optimistic s = omega arith
    scale-le base s = omega arith
    scale-le pessimistic s = omega arith

sample_ticks_lem :
    (run_seed corr_id : ℕ) (mode : SimulationMode) (spread : ℤ)
    → pos_part spread < 2 ^ 50
    → sample_ticks run_seed corr_id mode spread
      ≡ pos (next_range run_seed corr_id slippage 0 (slip_cap mode spread))
unfolding sample_ticks
sample_ticks_lem run_seed corr_id mode spread small = rw (slip_cap_lem mode spread small) (
    zero_or_draw (slippage_multiplier mode) (slip_cap mode spread)
      (λ c. next_range run_seed corr_id slippage 0 c) (next_range-nothing run_seed corr_id slippage)
      (slip_cap_zero mode spread))

abbrev wait_span : SimulationMode → ℤ → ℕ
wait_span mode spread = latency_span_ns mode * regime_stress mode spread / 2

sample_ns_lem :
    (run_seed corr_id : ℕ) (mode : SimulationMode) (spread : ℤ)
    → sample_ns run_seed corr_id mode spread
      ≡ latency_base_ns mode * regime_stress mode spread / 2
        + next_range run_seed corr_id latency 0 (wait_span mode spread)
unfolding sample_ns
sample_ns_lem run_seed corr_id mode spread = elim (Bool-cases (wait_span mode spread == 0)) [
  | inr e ↦ rw e refl
  | inl e ↦
      let empty : wait_span mode spread ≡ 0 = grind arith in
      rw (e, empty, next_range-nothing run_seed corr_id latency) (omega arith)
]

-- For the same order, quote and seed, a spread below 2^50: the optimistic mode slips by at most as much and
-- waits at most as long as the base mode, and that one as the pessimistic mode.
pub modes_ordered :
    (run_seed corr_id : ℕ) (spread : ℤ)
    → pos_part spread < 2 ^ 50
    → ((sample_ticks run_seed corr_id optimistic spread
          ≤ℤ sample_ticks run_seed corr_id base spread)
        × (sample_ticks run_seed corr_id base spread
            ≤ℤ sample_ticks run_seed corr_id pessimistic spread))
      × ((sample_ns run_seed corr_id optimistic spread ≤ sample_ns run_seed corr_id base spread)
          × (sample_ns run_seed corr_id base spread
              ≤ sample_ns run_seed corr_id pessimistic spread))
modes_ordered run_seed corr_id spread small =
    let level : spread_level spread ≤ 2 = ground arith in
    let narrow : width spread ≤ 2 ^ 50 = ground arith in
    let caps : slip_cap optimistic spread ≤ slip_cap base spread = grind arith in
    let stress : 1 * min (2 + spread_level spread) 4 ≤ 8 = omega arith in
    let more : width spread * (1 * min (2 + spread_level spread) 4) ≤ width spread * 8 =
      mul-le-mul_left (width spread) stress in
    let caps' : slip_cap base spread ≤ slip_cap pessimistic spread = omega (arith, more) in
    rw
      (
        sample_ticks_lem run_seed corr_id optimistic spread small,
        sample_ticks_lem run_seed corr_id base spread small,
        sample_ticks_lem run_seed corr_id pessimistic spread small,
        sample_ns_lem run_seed corr_id optimistic spread,
        sample_ns_lem run_seed corr_id base spread,
        sample_ns_lem run_seed corr_id pessimistic spread,
      )
      (
        (
          omega (arith, next_range_mono run_seed corr_id slippage _ _ caps (omega arith)),
          omega (arith, next_range_mono run_seed corr_id slippage _ _ caps' (omega arith)),
        ),
        (
          omega (
            arith,
            next_range_mono run_seed corr_id latency (wait_span optimistic spread)
                (wait_span base spread) (omega arith) (omega arith),
          ),
          omega (
            arith,
            next_range_mono run_seed corr_id latency (wait_span base spread)
                (wait_span pessimistic spread) (omega arith) (omega arith),
          ),
        ),
      )

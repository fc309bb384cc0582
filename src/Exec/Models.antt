-- ===== src/Exec/Models.antt =====
-- include/exec/models.hpp: latency, slippage, random rejections, queue placement and commission of the
-- simulation. The code computes the stress of a market regime in double; its values are multiples of one
-- half, which are exact there, so the model counts halves. The spread that it converts to double is rounded
-- there to 53 significant bits, and so is its product with the stress. A probability is the number of
-- 53-bit draws below it, which is exact for the doubles 0.005, 0.0075, 0.01 and 0.04 that can occur.
use market_microstructure_en.Base.{
  ℕ, ◌+◌, ◌*◌, ◌/◌, ◌^◌, ◌==◌, ltb, leb, min, Bool, true, false, ◌||◌, if◌then◌else◌,
}
use market_microstructure_en.Base.Int.{ℤ, pos, ◌+ℤ◌, ◌*ℤ◌, quot, leb_ℤ, ltb_ℤ, ◌==ℤ◌, pos_part}
use market_microstructure_en.Base.Doubles.{round_double}
use market_microstructure_en.Exec.Philox.{latency, slippage, rejection, next_u64, next_range}
use market_microstructure_en.Exec.Account.{SymbolSpec}
pub mod Ordered

pub data SimulationMode : Type 0 where
  optimistic base pessimistic : SimulationMode

-- `classify` on the broker's observation: the median is 1, the other two levels are 0. The ratio is the
-- spread, compared with 1.25 and 2.
abbrev pub spread_level : ℤ → ℕ
spread_level spread_ticks =
    if leb_ℤ spread_ticks (pos 1) then 0 else if ltb_ℤ spread_ticks (pos 2) then 1 else 2

abbrev pub latency_base_ns : SimulationMode → ℕ
latency_base_ns optimistic = 200000
latency_base_ns base = 2000000
latency_base_ns pessimistic = 30000000

abbrev pub latency_span_ns : SimulationMode → ℕ
latency_span_ns optimistic = 100000
latency_span_ns base = 3000000
latency_span_ns pessimistic = 20000000

abbrev pub slippage_multiplier : SimulationMode → ℕ
slippage_multiplier optimistic = 0
slippage_multiplier base = 1
slippage_multiplier pessimistic = 2

-- Halves of `queue_placement`.
abbrev pub queue_placement : SimulationMode → ℕ
queue_placement optimistic = 0
queue_placement base = 1
queue_placement pessimistic = 2

-- Halves of the stress: `1.0 + 0.5 * level_sum`, at its highest in the pessimistic mode.
abbrev pub regime_stress : SimulationMode → ℤ → ℕ
regime_stress pessimistic spread_ticks = 8
regime_stress base spread_ticks = 2 + spread_level spread_ticks
regime_stress optimistic spread_ticks = 2 + spread_level spread_ticks

unfoldable pub sample_ns : ℕ → ℕ → SimulationMode → ℤ → ℕ
sample_ns run_seed corr_id mode spread_ticks =
    let stress = regime_stress mode spread_ticks in
    let span = latency_span_ns mode * stress / 2 in
    let base_ns = latency_base_ns mode * stress / 2 in
    if span == 0 then base_ns else base_ns + next_range run_seed corr_id latency 0 span

unfoldable pub sample_ticks : ℕ → ℕ → SimulationMode → ℤ → ℤ
sample_ticks run_seed corr_id mode spread_ticks =
    let stress = min (regime_stress mode spread_ticks) 4 in
    let width = if ltb_ℤ (pos 0) spread_ticks then pos_part spread_ticks else 1 in
    let cap = round_double (round_double width * (slippage_multiplier mode * stress)) / 2 in
    if slippage_multiplier mode == 0 || cap == 0
    then pos 0
    else pos (next_range run_seed corr_id slippage 0 cap)

-- `probability * 2^53`, rounded up: 0.005 or, under stress, 0.0075 or 0.01 in the base mode; 0.04 in the
-- pessimistic one.
abbrev pub reject_draws : SimulationMode → ℤ → ℕ
reject_draws optimistic spread_ticks = 0
reject_draws base spread_ticks =
    if spread_level spread_ticks == 0
    then 45035996273705
    else if spread_level spread_ticks == 1
    then 67553994410558
    else 90071992547410
reject_draws pessimistic spread_ticks = 360287970189640

-- `RejectionModel::rejects`, with the draw of `next_unit` as its 53 bits.
unfoldable pub rejects : ℕ → ℕ → SimulationMode → ℤ → Bool
rejects run_seed corr_id mode spread_ticks =
    ltb (next_u64 run_seed corr_id rejection / 2 ^ 11) (reject_draws mode spread_ticks)

unfoldable pub charge_minor : SymbolSpec → ℤ → ℤ
charge_minor spec filled_volume =
    let numerator = filled_volume *ℤ spec.commission_per_lot_minor in
    let denominator = if ltb_ℤ (pos 0) spec.contract_size then spec.contract_size else pos 1 in
    if leb_ℤ filled_volume (pos 0) || spec.commission_per_lot_minor ==ℤ pos 0
    then pos 0
    else if leb_ℤ spec.volume_step (pos 0)
    then pos 0
    else quot (numerator +ℤ quot denominator (pos 2)) denominator

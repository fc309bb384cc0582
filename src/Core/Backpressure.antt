-- ===== src/Core/Backpressure.antt =====
-- include/core/backpressure.hpp: what a full or filling ring makes the engine do.
use market_microstructure_en.Base.{
  ℕ, ◌/◌, ◌%◌, ◌≤◌, ◌<◌, ◌≡◌, refl, arith, Bool, true, false, ◌==◌, ltb, leb, if◌then◌else◌,
  Bool-cases, ◌⊎◌, inl, inr,
}
use market_microstructure_en.Base.Words.{mul64, u32_mod}

pub data RingId : Type 0 where
  market_data command event wal journal telemetry : RingId

pub data BackpressureAction : Type 0 where
  no_action halt_new_entries halt_engine reject_resource_exhausted drop_telemetry :
      BackpressureAction

pub record BackpressureDecision : Type 0 where
  pub action : BackpressureAction
  pub occupancy_pct : ℕ

-- `static_cast<unsigned>((occupancy * 100U) / capacity)`
unfoldable pub percent : ℕ → ℕ → ℕ
percent occupancy capacity = if capacity == 0 then 100 else mul64 occupancy 100 / capacity % u32_mod

-- The action of a ring that is full.
abbrev pub full_action : RingId → BackpressureAction
full_action command = reject_resource_exhausted
full_action telemetry = drop_telemetry
full_action _ = halt_engine

abbrev pub is_market_data : RingId → Bool
is_market_data market_data = true
is_market_data _ = false

unfoldable pub evaluate_backpressure : RingId → ℕ → ℕ → BackpressureDecision
unfolding percent
evaluate_backpressure ring occupancy capacity =
    let pct = percent occupancy capacity in
    let decide : BackpressureAction → BackpressureDecision =
      λ a. record { action = a; occupancy_pct = if ltb 100 pct then 100 else pct } in
    if is_market_data ring
    then if leb capacity occupancy
      then decide halt_engine
      else if leb 75 pct
      then decide halt_new_entries
      else decide no_action
    else if ltb occupancy capacity
    then decide no_action
    else decide (full_action ring)

filling :
    (occupancy capacity : ℕ)
    → occupancy < capacity
    → (evaluate_backpressure market_data occupancy capacity).action ≡ no_action
      ⊎ ((market_data ≡ market_data)
          × ((evaluate_backpressure market_data occupancy capacity).action ≡ halt_new_entries))
unfolding evaluate_backpressure
filling occupancy capacity h = elim (Bool-cases (leb 75 (percent occupancy capacity))) [
  | inl e ↦ inr (refl, rw e (ground arith))
  | inr e ↦ inl (rw e (ground arith))
]

-- A ring that is not full never halts the engine, rejects or drops; a full one always does what its kind
-- asks for.
pub backpressure_full :
    (ring : RingId) (occupancy capacity : ℕ)
    → (capacity ≤ occupancy
        → (evaluate_backpressure ring occupancy capacity).action ≡ full_action ring)
      × (occupancy < capacity
          → (evaluate_backpressure ring occupancy capacity).action ≡ no_action
            ⊎ ((ring ≡ market_data)
                × ((evaluate_backpressure ring occupancy capacity).action ≡ halt_new_entries)))
unfolding evaluate_backpressure
backpressure_full market_data occupancy capacity =
    (λ h. ground arith, λ h. filling occupancy capacity h)
backpressure_full command occupancy capacity = (λ h. ground arith, λ h. inl (ground arith))
backpressure_full event occupancy capacity = (λ h. ground arith, λ h. inl (ground arith))
backpressure_full wal occupancy capacity = (λ h. ground arith, λ h. inl (ground arith))
backpressure_full journal occupancy capacity = (λ h. ground arith, λ h. inl (ground arith))
backpressure_full telemetry occupancy capacity = (λ h. ground arith, λ h. inl (ground arith))

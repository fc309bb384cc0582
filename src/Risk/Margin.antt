-- ===== src/Risk/Margin.antt =====
-- include/risk/margin_projection.hpp and self_trade_prevention.hpp.
pub mod Exact
use market_microstructure_en.Base.{
  ℕ, ◌==◌, not, ◌&&◌, ◌||◌, Bool, true, false, if◌then◌else◌, Bool-cases, inl, inr,
}
use market_microstructure_en.Base.Int.{
  ℤ, pos, negsuc, ◌+ℤ◌, ◌-ℤ◌, ◌*ℤ◌, ltb_ℤ, leb_ℤ, ◌==ℤ◌, quot, int64_max,
}
use market_microstructure_en.Exec.Types.{Side, buy, sell}

unfoldable pub projected_free_margin : ℤ → ℤ → ℤ → ℤ → ℤ
projected_free_margin free_margin order_margin notional shock_bp =
    if ltb_ℤ free_margin (pos 0)
      || ltb_ℤ order_margin (pos 0)
      || ltb_ℤ notional (pos 0)
      || ltb_ℤ shock_bp (pos 0)
    then negsuc 0
    else if not (shock_bp ==ℤ pos 0) && ltb_ℤ (quot (int64_max -ℤ pos 9999) shock_bp) notional
    then negsuc 0
    else (let shock = quot (notional *ℤ shock_bp +ℤ pos 9999) (pos 10000) in
        if ltb_ℤ free_margin order_margin || ltb_ℤ (free_margin -ℤ order_margin) shock
        then negsuc 0
        else free_margin -ℤ order_margin -ℤ shock)

unfoldable pub self_trade_ok : Bool → Bool → ℕ → ℕ → ℤ → Side → Bool
self_trade_ok hedging allow_opposition owner_strategy incoming_strategy current_net incoming_side =
    if not hedging
      || allow_opposition
      || current_net ==ℤ pos 0
      || owner_strategy == incoming_strategy
    then true
    else elim incoming_side [ buy ↦ ltb_ℤ (pos 0) current_net | sell ↦ ltb_ℤ current_net (pos 0) ]

-- ===== src/Risk/Limits.antt =====
-- include/risk/limits.hpp and halt_state.hpp: the configured limits and the reasons to halt.
use market_microstructure_en.Base.{ℕ, Bool, true, false, ◌&&◌, not, ◌==◌, ltb, leb, List, [], ◌∷◌}
use market_microstructure_en.Base.Int.{ℤ, pos, ltb_ℤ, leb_ℤ}

pub record Limits : Type 0 where
  pub max_risk_per_trade : ℤ
  pub max_position_per_symbol : ℤ
  pub max_gross_exposure : ℤ
  pub max_net_exposure : ℤ
  pub max_leverage_bp : ℤ
  pub adverse_shock_bp : ℤ
  pub max_open_orders : ℕ
  pub max_in_flight_per_symbol : ℕ
  pub max_order_requests_per_second : ℕ
  pub max_orders_per_minute : ℕ
  pub max_fills_per_minute : ℕ
  pub max_trades_per_day : ℕ
  pub min_time_between_orders_ns : ℕ
  pub max_spread_ticks : ℤ
  pub max_slippage_ticks : ℤ
  pub max_order_volume : ℤ
  pub max_daily_loss : ℤ
  pub max_drawdown_bp : ℕ
  pub max_consecutive_losses : ℕ
  pub max_staleness_ms : ℕ
  pub max_reject_rate_bp : ℕ
  pub min_free_bytes : ℕ
  pub required_warm_mask : ℕ
  pub symbol_allowed : List Bool
  pub allow_cross_strategy_opposition : Bool

-- `Limits{}`.
abbrev pub default_limits : Limits
default_limits = record {
  max_risk_per_trade = pos 100000;
  max_position_per_symbol = pos 1000000;
  max_gross_exposure = pos 5000000;
  max_net_exposure = pos 3000000;
  max_leverage_bp = pos 100000;
  adverse_shock_bp = pos 200;
  max_open_orders = 256;
  max_in_flight_per_symbol = 32;
  max_order_requests_per_second = 1000;
  max_orders_per_minute = 10000;
  max_fills_per_minute = 10000;
  max_trades_per_day = 100000;
  min_time_between_orders_ns = 0;
  max_spread_ticks = pos 100;
  max_slippage_ticks = pos 100;
  max_order_volume = pos 100000;
  max_daily_loss = pos 1000000;
  max_drawdown_bp = 2000;
  max_consecutive_losses = 10;
  max_staleness_ms = 1000;
  max_reject_rate_bp = 1000;
  min_free_bytes = 1073741824;
  required_warm_mask = 1;
  symbol_allowed = true ∷ true ∷ true ∷ true ∷ true ∷ false ∷ false ∷ false ∷ [];
  allow_cross_strategy_opposition = false;
}

unfoldable pub self_test : Limits → Bool
self_test x =
    ltb_ℤ (pos 0) x.max_risk_per_trade
    && ltb_ℤ (pos 0) x.max_position_per_symbol
    && ltb_ℤ (pos 0) x.max_gross_exposure
    && ltb_ℤ (pos 0) x.max_net_exposure
    && leb_ℤ x.max_net_exposure x.max_gross_exposure
    && ltb_ℤ (pos 0) x.max_leverage_bp
    && ltb_ℤ (pos 0) x.adverse_shock_bp
    && ltb 0 x.max_open_orders
    && ltb 0 x.max_in_flight_per_symbol
    && ltb 0 x.max_order_requests_per_second
    && ltb 0 x.max_orders_per_minute
    && leb x.max_order_requests_per_second x.max_orders_per_minute
    && ltb 0 x.max_fills_per_minute
    && ltb 0 x.max_trades_per_day
    && ltb_ℤ (pos 0) x.max_spread_ticks
    && ltb_ℤ (pos 0) x.max_slippage_ticks
    && ltb_ℤ (pos 0) x.max_order_volume
    && ltb_ℤ (pos 0) x.max_daily_loss
    && ltb 0 x.max_drawdown_bp
    && ltb x.max_drawdown_bp 10000
    && ltb 0 x.max_consecutive_losses
    && ltb 0 x.max_staleness_ms
    && ltb 0 x.max_reject_rate_bp
    && leb x.max_reject_rate_bp 10000
    && ltb 0 x.min_free_bytes
    && not (x.required_warm_mask == 0)

pub data HaltReason : Type 0 where
  no_halt daily_loss drawdown consecutive_losses feed_stale sequence_gap backpressure : HaltReason
  latency reject_rate disconnected reconciliation instance_lock stale_epoch disk : HaltReason
  manual_kill control_kill : HaltReason

pub record HaltSignals : Type 0 where
  pub pnl : ℤ
  pub equity : ℤ
  pub peak_equity : ℤ
  pub losses : ℕ
  pub feed_age_ms : ℕ
  pub disk_free_bytes : ℕ
  pub ring_percent : ℕ
  pub reject_rate_bp : ℕ
  pub gap : Bool
  pub latency_breach : Bool
  pub connected : Bool
  pub reconciliation_break : Bool
  pub lock_held : Bool
  pub epoch_stale : Bool
  pub killed_by_hand : Bool
  pub killed_by_control : Bool

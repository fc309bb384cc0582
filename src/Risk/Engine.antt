-- ===== src/Risk/Engine.antt =====
-- include/risk/risk_engine.hpp: the verifier of requests, and the reasons to halt.
pub mod Valid
pub mod Conditions
pub mod Approves
pub mod Calm
use Prim.Native.Nat.{bit_and}
use market_microstructure_en.Base.{
  ℕ, ◌+◌, ◌-◌, ◌%◌, Bool, true, false, ◌&&◌, ◌||◌, not, ◌==◌, ltb, leb, if◌then◌else◌, length,
  get_or,
}
use market_microstructure_en.Base.Int.{
  ℤ, pos, ◌+ℤ◌, ◌*ℤ◌, ltb_ℤ, leb_ℤ, ◌==ℤ◌, neg, abs64, int64_min,
}
use market_microstructure_en.Base.Words.{sub64, u32_mod}
use market_microstructure_en.Exec.Types.{Side, buy, sell}
use market_microstructure_en.Risk.Limits.{
  Limits, HaltReason, HaltSignals, self_test, no_halt, daily_loss, drawdown, consecutive_losses,
  feed_stale, sequence_gap, backpressure, latency, reject_rate, disconnected, reconciliation,
  instance_lock, stale_epoch, disk, manual_kill, control_kill,
}
use market_microstructure_en.Risk.Margin.{projected_free_margin, self_trade_ok}

pub data Reject : Type 0 where
  no_reject halted invalid_configuration invalid_arithmetic risk_per_trade position gross net :
      Reject
  leverage margin open_orders in_flight rate_second rate_minute fills_minute trades_day : Reject
  cadence spread slippage fat_finger symbol session reduce_only cold_features self_trade : Reject

pub record Request : Type 0 where
  pub symbol_id : ℕ
  pub strategy_id : ℕ
  pub side : Side
  pub volume : ℤ
  pub risk_minor : ℤ
  pub projected_position : ℤ
  pub projected_gross : ℤ
  pub projected_net : ℤ
  pub notional : ℤ
  pub order_margin : ℤ
  pub free_margin : ℤ
  pub leverage_bp : ℤ
  pub spread_ticks : ℤ
  pub slippage_ticks : ℤ
  pub orders_open : ℕ
  pub orders_in_flight : ℕ
  pub requests_second : ℕ
  pub orders_minute : ℕ
  pub filled_minute : ℕ
  pub traded_day : ℕ
  pub now_ns : ℕ
  pub last_order_ns : ℕ
  pub warm_mask : ℕ
  pub session_open : Bool
  pub reduces_only : Bool
  pub current_net : ℤ
  pub position_owner_strategy : ℕ
  pub hedging : Bool

-- The token carries no data; it is made only where `approved` is set.
pub record Decision : Type 0 where
  pub approved : Bool
  pub reason : Reject

pub record RiskEngine : Type 0 where
  pub limits : Limits
  pub valid : Bool
  pub is_halted : Bool
  pub halt_reason : HaltReason

unfoldable pub make_engine : Limits → RiskEngine
make_engine limits = record {
  limits = limits;
  valid = self_test limits;
  is_halted = false;
  halt_reason = no_halt;
}

unfoldable pub halt : RiskEngine → HaltReason → RiskEngine
halt e reason = record e { is_halted = true; halt_reason = reason }

-- `if (bad) return no(reason);`, then the rest of the function.
unfoldable pub no_if : Bool → Reject → Decision → Decision
no_if bad reason rest = if bad then record { approved = false; reason = reason } else rest

unfoldable pub bad_arithmetic : Request → Bool
bad_arithmetic r =
    r.projected_position ==ℤ int64_min
    || r.projected_net ==ℤ int64_min
    || ltb_ℤ r.notional (pos 0)
    || ltb_ℤ r.order_margin (pos 0)
    || ltb_ℤ r.free_margin (pos 0)
    || ltb_ℤ r.risk_minor (pos 0)
    || ltb_ℤ r.projected_gross (pos 0)
    || ltb_ℤ r.leverage_bp (pos 0)
    || ltb_ℤ r.spread_ticks (pos 0)
    || ltb_ℤ r.slippage_ticks (pos 0)
    || (not (r.last_order_ns == 0) && ltb r.now_ns r.last_order_ns)

unfoldable pub too_soon : Limits → Request → Bool
too_soon l r =
    not (r.last_order_ns == 0) && ltb (sub64 r.now_ns r.last_order_ns) l.min_time_between_orders_ns

unfoldable pub bad_symbol : Limits → Request → Bool
bad_symbol l r =
    leb (length l.symbol_allowed) r.symbol_id || not (get_or l.symbol_allowed r.symbol_id false)

unfoldable pub not_reducing : Request → Bool
not_reducing r =
    r.reduces_only
    && elim r.side [ buy ↦ leb_ℤ (pos 0) r.current_net | sell ↦ leb_ℤ r.current_net (pos 0) ]

unfoldable pub cold : Limits → Request → Bool
cold l r = not (bit_and r.warm_mask l.required_warm_mask == l.required_warm_mask)

unfoldable pub check : RiskEngine → Request → Decision
check e r =
    let l = e.limits in
    no_if (not e.valid) invalid_configuration (
      no_if e.is_halted halted (
        no_if (bad_arithmetic r) invalid_arithmetic (
          no_if (ltb_ℤ l.max_risk_per_trade r.risk_minor) risk_per_trade (
            no_if (ltb_ℤ l.max_position_per_symbol (abs64 r.projected_position)) position (
              no_if (ltb_ℤ l.max_gross_exposure r.projected_gross) gross (
                no_if (ltb_ℤ l.max_net_exposure (abs64 r.projected_net)) net (
                  no_if (ltb_ℤ l.max_leverage_bp r.leverage_bp) leverage (
                    no_if
                      (ltb_ℤ
                        (projected_free_margin r.free_margin r.order_margin r.notional
                          l.adverse_shock_bp)
                        (pos 0))
                      margin
                      (no_if (leb l.max_open_orders r.orders_open) open_orders (
                        no_if (leb l.max_in_flight_per_symbol r.orders_in_flight) in_flight (
                          no_if (leb l.max_order_requests_per_second r.requests_second) rate_second
                            (no_if (leb l.max_orders_per_minute r.orders_minute) rate_minute (
                              no_if (leb l.max_fills_per_minute r.filled_minute) fills_minute (
                                no_if (leb l.max_trades_per_day r.traded_day) trades_day (
                                  no_if (too_soon l r) cadence (
                                    no_if (ltb_ℤ l.max_spread_ticks r.spread_ticks) spread (
                                      no_if (ltb_ℤ l.max_slippage_ticks r.slippage_ticks) slippage (
                                        no_if
                                          (leb_ℤ r.volume (pos 0)
                                            || ltb_ℤ l.max_order_volume r.volume)
                                          fat_finger
                                          (no_if (bad_symbol l r) symbol (
                                            no_if (not r.session_open) session (
                                              no_if (not_reducing r) reduce_only (
                                                no_if (cold l r) cold_features (
                                                  no_if
                                                    (not (
                                                      self_trade_ok r.hedging
                                                        l.allow_cross_strategy_opposition
                                                        r.position_owner_strategy r.strategy_id
                                                        r.current_net r.side))
                                                    self_trade
                                                    (record {
                                                      approved = true;
                                                      reason = no_reject;
                                                    }))))))))))))))))))))))))

-- `10000 - limits_.max_drawdown_bp` is an unsigned 32-bit difference.
unfoldable pub drawn_down : Limits → HaltSignals → Bool
drawn_down l s =
    ltb_ℤ (pos 0) s.peak_equity
    && leb_ℤ (s.equity *ℤ pos 10000)
        (s.peak_equity *ℤ pos ((10000 + u32_mod - l.max_drawdown_bp) % u32_mod))

-- `if (bad) return reason;`
unfoldable pub halt_if : Bool → HaltReason → HaltReason → HaltReason
halt_if bad reason rest = if bad then reason else rest

unfoldable pub evaluate : RiskEngine → HaltSignals → HaltReason
evaluate e s =
    let l = e.limits in
    halt_if (leb_ℤ s.pnl (neg l.max_daily_loss)) daily_loss (
      halt_if (drawn_down l s) drawdown (
        halt_if (leb l.max_consecutive_losses s.losses) consecutive_losses (
          halt_if (leb l.max_staleness_ms s.feed_age_ms) feed_stale (
            halt_if s.gap sequence_gap (
              halt_if (leb 100 s.ring_percent) backpressure (
                halt_if s.latency_breach latency (
                  halt_if (ltb l.max_reject_rate_bp s.reject_rate_bp) reject_rate (
                    halt_if (not s.connected) disconnected (
                      halt_if s.reconciliation_break reconciliation (
                        halt_if (not s.lock_held) instance_lock (
                          halt_if s.epoch_stale stale_epoch (
                            halt_if (ltb s.disk_free_bytes l.min_free_bytes) disk (
                              halt_if s.killed_by_hand manual_kill
                                (halt_if s.killed_by_control control_kill no_halt))))))))))))))

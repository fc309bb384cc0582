-- ===== src/Risk/Engine/Valid.antt =====
-- The self-test of the limits, condition by condition.
use market_microstructure_en.Base.{
  ℕ, ◌<◌, ◌≤◌, ◌≡◌, ◌≢◌, refl, arith, Bool, true, ◌&&◌, not, ◌==◌, ltb, leb, both_true, ltb→lt,
  leb→le,
}
use market_microstructure_en.Base.Int.{ℤ, pos, ltb_ℤ, leb_ℤ, ◌≤ℤ◌, ◌<ℤ◌}
use market_microstructure_en.Risk.Limits.{Limits, self_test}

-- Every limit is positive and the limits agree with one another.
pub record ValidLimits (x : Limits) : Type 0 where
  pub valid_risk : pos 0 <ℤ x.max_risk_per_trade
  pub valid_position : pos 0 <ℤ x.max_position_per_symbol
  pub valid_gross : pos 0 <ℤ x.max_gross_exposure
  pub valid_net : pos 0 <ℤ x.max_net_exposure
  pub valid_net_in_gross : x.max_net_exposure ≤ℤ x.max_gross_exposure
  pub valid_leverage : pos 0 <ℤ x.max_leverage_bp
  pub valid_shock : pos 0 <ℤ x.adverse_shock_bp
  pub valid_open : 0 < x.max_open_orders
  pub valid_in_flight : 0 < x.max_in_flight_per_symbol
  pub valid_second : 0 < x.max_order_requests_per_second
  pub valid_minute : 0 < x.max_orders_per_minute
  pub valid_second_in_minute : x.max_order_requests_per_second ≤ x.max_orders_per_minute
  pub valid_fills : 0 < x.max_fills_per_minute
  pub valid_trades : 0 < x.max_trades_per_day
  pub valid_spread : pos 0 <ℤ x.max_spread_ticks
  pub valid_slippage : pos 0 <ℤ x.max_slippage_ticks
  pub valid_volume : pos 0 <ℤ x.max_order_volume
  pub valid_loss : pos 0 <ℤ x.max_daily_loss
  pub valid_drawdown : (0 < x.max_drawdown_bp) × (x.max_drawdown_bp < 10000)
  pub valid_losses : 0 < x.max_consecutive_losses
  pub valid_staleness : 0 < x.max_staleness_ms
  pub valid_rejects : (0 < x.max_reject_rate_bp) × (x.max_reject_rate_bp ≤ 10000)
  pub valid_disk : 0 < x.min_free_bytes
  pub valid_warm : x.required_warm_mask ≢ 0

both : (a b : Bool) → a ≡ true → b ≡ true → (a && b) ≡ true
both a b h k = rw (h, k) refl

of_less : (a b : ℤ) → ltb_ℤ a b ≡ true → a <ℤ b
of_less a b h = ground arith

of_least : (a b : ℤ) → leb_ℤ a b ≡ true → a ≤ℤ b
of_least a b h = ground arith

to_less : (a b : ℤ) → a <ℤ b → ltb_ℤ a b ≡ true
to_less a b h = ground arith

to_least : (a b : ℤ) → a ≤ℤ b → leb_ℤ a b ≡ true
to_least a b h = ground arith

lt→ltb : (a b : ℕ) → a < b → ltb a b ≡ true
lt→ltb a b h = ground arith

le→leb : (a b : ℕ) → a ≤ b → leb a b ≡ true
le→leb a b h = ground arith

of_not_zero : (a : ℕ) → not (a == 0) ≡ true → a ≢ 0
of_not_zero a h = ground arith

to_not_zero : (a : ℕ) → a ≢ 0 → not (a == 0) ≡ true
to_not_zero a h = ground arith

pub self_test-Valid : (x : Limits) → self_test x ≡ true → ValidLimits x
unfolding self_test
self_test-Valid x h =
    let (h25, b25) = both_true _ _ h in
    let (h24, b24) = both_true _ _ h25 in
    let (h23, b23) = both_true _ _ h24 in
    let (h22, b22) = both_true _ _ h23 in
    let (h21, b21) = both_true _ _ h22 in
    let (h20, b20) = both_true _ _ h21 in
    let (h19, b19) = both_true _ _ h20 in
    let (h18, b18) = both_true _ _ h19 in
    let (h17, b17) = both_true _ _ h18 in
    let (h16, b16) = both_true _ _ h17 in
    let (h15, b15) = both_true _ _ h16 in
    let (h14, b14) = both_true _ _ h15 in
    let (h13, b13) = both_true _ _ h14 in
    let (h12, b12) = both_true _ _ h13 in
    let (h11, b11) = both_true _ _ h12 in
    let (h10, b10) = both_true _ _ h11 in
    let (h9, b9) = both_true _ _ h10 in
    let (h8, b8) = both_true _ _ h9 in
    let (h7, b7) = both_true _ _ h8 in
    let (h6, b6) = both_true _ _ h7 in
    let (h5, b5) = both_true _ _ h6 in
    let (h4, b4) = both_true _ _ h5 in
    let (h3, b3) = both_true _ _ h4 in
    let (h2, b2) = both_true _ _ h3 in
    let (b0, b1) = both_true _ _ h2 in
    record {
      valid_risk = of_less (pos 0) x.max_risk_per_trade b0;
      valid_position = of_less (pos 0) x.max_position_per_symbol b1;
      valid_gross = of_less (pos 0) x.max_gross_exposure b2;
      valid_net = of_less (pos 0) x.max_net_exposure b3;
      valid_net_in_gross = of_least x.max_net_exposure x.max_gross_exposure b4;
      valid_leverage = of_less (pos 0) x.max_leverage_bp b5;
      valid_shock = of_less (pos 0) x.adverse_shock_bp b6;
      valid_open = ltb→lt 0 x.max_open_orders b7;
      valid_in_flight = ltb→lt 0 x.max_in_flight_per_symbol b8;
      valid_second = ltb→lt 0 x.max_order_requests_per_second b9;
      valid_minute = ltb→lt 0 x.max_orders_per_minute b10;
      valid_second_in_minute = leb→le x.max_order_requests_per_second x.max_orders_per_minute b11;
      valid_fills = ltb→lt 0 x.max_fills_per_minute b12;
      valid_trades = ltb→lt 0 x.max_trades_per_day b13;
      valid_spread = of_less (pos 0) x.max_spread_ticks b14;
      valid_slippage = of_less (pos 0) x.max_slippage_ticks b15;
      valid_volume = of_less (pos 0) x.max_order_volume b16;
      valid_loss = of_less (pos 0) x.max_daily_loss b17;
      valid_drawdown = (ltb→lt 0 x.max_drawdown_bp b18, ltb→lt x.max_drawdown_bp 10000 b19);
      valid_losses = ltb→lt 0 x.max_consecutive_losses b20;
      valid_staleness = ltb→lt 0 x.max_staleness_ms b21;
      valid_rejects = (ltb→lt 0 x.max_reject_rate_bp b22, leb→le x.max_reject_rate_bp 10000 b23);
      valid_disk = ltb→lt 0 x.min_free_bytes b24;
      valid_warm = of_not_zero x.required_warm_mask b25;
    }

pub Valid-self_test : (x : Limits) → ValidLimits x → self_test x ≡ true
unfolding self_test
Valid-self_test x v =
    both _ _
      (both _ _
        (both _ _
          (both _ _
            (both _ _
              (both _ _
                (both _ _
                  (both _ _
                    (both _ _
                      (both _ _
                        (both _ _
                          (both _ _
                            (both _ _
                              (both _ _
                                (both _ _
                                  (both _ _
                                    (both _ _
                                      (both _ _
                                        (both _ _
                                          (both _ _
                                            (both _ _
                                              (both _ _
                                                (both _ _
                                                  (both _ _
                                                    (both _ _
                                                      ((to_less (pos 0) x.max_risk_per_trade
                                                        v.valid_risk))
                                                      (to_less (pos 0) x.max_position_per_symbol
                                                        v.valid_position))
                                                    (to_less (pos 0) x.max_gross_exposure
                                                      v.valid_gross))
                                                  (to_less (pos 0) x.max_net_exposure v.valid_net))
                                                (to_least x.max_net_exposure x.max_gross_exposure
                                                  v.valid_net_in_gross))
                                              (to_less (pos 0) x.max_leverage_bp v.valid_leverage))
                                            (to_less (pos 0) x.adverse_shock_bp v.valid_shock))
                                          (lt→ltb 0 x.max_open_orders v.valid_open))
                                        (lt→ltb 0 x.max_in_flight_per_symbol v.valid_in_flight))
                                      (lt→ltb 0 x.max_order_requests_per_second v.valid_second))
                                    (lt→ltb 0 x.max_orders_per_minute v.valid_minute))
                                  (le→leb x.max_order_requests_per_second x.max_orders_per_minute
                                    v.valid_second_in_minute))
                                (lt→ltb 0 x.max_fills_per_minute v.valid_fills))
                              (lt→ltb 0 x.max_trades_per_day v.valid_trades))
                            (to_less (pos 0) x.max_spread_ticks v.valid_spread))
                          (to_less (pos 0) x.max_slippage_ticks v.valid_slippage))
                        (to_less (pos 0) x.max_order_volume v.valid_volume))
                      (to_less (pos 0) x.max_daily_loss v.valid_loss))
                    (lt→ltb 0 x.max_drawdown_bp v.valid_drawdown.0))
                  (lt→ltb x.max_drawdown_bp 10000 v.valid_drawdown.1))
                (lt→ltb 0 x.max_consecutive_losses v.valid_losses))
              (lt→ltb 0 x.max_staleness_ms v.valid_staleness))
            (lt→ltb 0 x.max_reject_rate_bp v.valid_rejects.0))
          (le→leb x.max_reject_rate_bp 10000 v.valid_rejects.1))
        (lt→ltb 0 x.min_free_bytes v.valid_disk))
      (to_not_zero x.required_warm_mask v.valid_warm)

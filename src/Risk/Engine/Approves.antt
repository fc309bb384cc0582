-- ===== src/Risk/Engine/Approves.antt =====
-- What an approved request satisfies.
use mathlib.Core.Bool.{true≢false}
use Prim.Native.Nat.{bit_and}
use market_microstructure_en.Risk.Engine.Valid.{ValidLimits, self_test-Valid, Valid-self_test}
use market_microstructure_en.Risk.Engine.Conditions.{
  Sound, bad_arithmetic-Sound, Sound-bad_arithmetic, Within, abs64-Within, Within-abs64, Spaced,
  spaced, unspaced, Reduces, reduces, Reduces-back, NoSelfTrade, self_trade_ok-NoSelfTrade,
  NoSelfTrade-self_trade_ok, not_less, less_not,
}
use market_microstructure_en.Risk.Limits.{self_test}
use market_microstructure_en.Base.Words.{u64_mod}
use market_microstructure_en.Base.{
  ◌∙◌, ℕ, ◌<◌, ◌≡◌, ◌↔◌, refl, sym, ap, arith, Bool, true, false, ◌||◌, not, ◌==◌, leb, length,
  get_or,
}
use market_microstructure_en.Base.Int.{ℤ, pos, ltb_ℤ, leb_ℤ, ◌≤ℤ◌, ◌<ℤ◌, abs64}
use market_microstructure_en.Risk.Margin.{projected_free_margin}
use market_microstructure_en.Risk.Engine.{
  Reject, Request, Decision, RiskEngine, no_if, too_soon, bad_symbol, not_reducing, cold, check,
}

-- The engine is in force and the request is within every limit.
pub record Passes (e : RiskEngine) (r : Request) : Type 0 where
  pub valid_ok : ValidLimits e.limits
  pub live_ok : e.is_halted ≡ false
  pub arithmetic_ok : Sound r
  pub risk_ok : r.risk_minor ≤ℤ e.limits.max_risk_per_trade
  pub position_ok : Within r.projected_position e.limits.max_position_per_symbol
  pub gross_ok : r.projected_gross ≤ℤ e.limits.max_gross_exposure
  pub net_ok : Within r.projected_net e.limits.max_net_exposure
  pub leverage_ok : r.leverage_bp ≤ℤ e.limits.max_leverage_bp
  pub margin_ok :
      pos 0
      ≤ℤ projected_free_margin r.free_margin r.order_margin r.notional e.limits.adverse_shock_bp
  pub open_ok : r.orders_open < e.limits.max_open_orders
  pub in_flight_ok : r.orders_in_flight < e.limits.max_in_flight_per_symbol
  pub second_ok : r.requests_second < e.limits.max_order_requests_per_second
  pub minute_ok : r.orders_minute < e.limits.max_orders_per_minute
  pub fills_ok : r.filled_minute < e.limits.max_fills_per_minute
  pub day_ok : r.traded_day < e.limits.max_trades_per_day
  pub cadence_ok : Spaced r.last_order_ns r.now_ns e.limits.min_time_between_orders_ns
  pub spread_ok : r.spread_ticks ≤ℤ e.limits.max_spread_ticks
  pub slippage_ok : r.slippage_ticks ≤ℤ e.limits.max_slippage_ticks
  pub volume_ok : (pos 0 <ℤ r.volume) × (r.volume ≤ℤ e.limits.max_order_volume)
  pub symbol_ok :
      (r.symbol_id < length e.limits.symbol_allowed)
      × (get_or e.limits.symbol_allowed r.symbol_id false ≡ true)
  pub session_ok : r.session_open ≡ true
  pub reducing_ok : Reduces r.reduces_only r.side r.current_net
  pub warm_ok : bit_and r.warm_mask e.limits.required_warm_mask ≡ e.limits.required_warm_mask
  pub self_trade_free :
      NoSelfTrade r.hedging e.limits.allow_cross_strategy_opposition r.position_owner_strategy
        r.strategy_id r.current_net r.side

no_if-approved :
    (bad : Bool) (reason : Reject) (rest : Decision)
    → (no_if bad reason rest).approved ≡ true
    → (bad ≡ false) × (rest.approved ≡ true)
unfolding no_if
no_if-approved true reason rest h = absurd (true≢false (sym h))
no_if-approved false reason rest h = (refl, h)

no_if-pass :
    (bad : Bool) (reason : Reject) (rest : Decision)
    → bad ≡ false
    → rest.approved ≡ true
    → (no_if bad reason rest).approved ≡ true
unfolding no_if
no_if-pass true reason rest b h = absurd (true≢false b)
no_if-pass false reason rest b h = h

true_of_not : (b : Bool) → not b ≡ false → b ≡ true
true_of_not b h = ground arith

not_least : (a b : ℕ) → leb b a ≡ false → a < b
not_least a b h = ground arith

least_not : (a b : ℕ) → a < b → leb b a ≡ false
least_not a b h = ground arith

equal_words : (a b : ℕ) → not (a == b) ≡ false → a ≡ b
equal_words a b h = ground arith

words_equal : (a b : ℕ) → a ≡ b → not (a == b) ≡ false
words_equal a b h = ground arith

volume_within : (v m : ℤ) → (leb_ℤ v (pos 0) || ltb_ℤ m v) ≡ false → (pos 0 <ℤ v) × (v ≤ℤ m)
volume_within v m h = ground arith

within_volume : (v m : ℤ) → (pos 0 <ℤ v) × (v ≤ℤ m) → (leb_ℤ v (pos 0) || ltb_ℤ m v) ≡ false
within_volume v m h = ground arith

symbol_within : (a b : ℕ) {c : Bool} → (leb a b || not c) ≡ false → (b < a) × (c ≡ true)
symbol_within a b h = ground arith

within_symbol : (a b : ℕ) {c : Bool} → (b < a) × (c ≡ true) → (leb a b || not c) ≡ false
within_symbol a b h = ground arith

check-Passes :
    (e : RiskEngine) (r : Request)
    → e.valid ≡ self_test e.limits
    → r.now_ns < u64_mod
    → (check e r).approved ≡ true
    → Passes e r
unfolding check bad_symbol cold too_soon not_reducing
check-Passes e r computed word h =
    let (b0, h0) = no_if-approved _ _ _ h in
    let (b1, h1) = no_if-approved _ _ _ h0 in
    let (b2, h2) = no_if-approved _ _ _ h1 in
    let (b3, h3) = no_if-approved _ _ _ h2 in
    let (b4, h4) = no_if-approved _ _ _ h3 in
    let (b5, h5) = no_if-approved _ _ _ h4 in
    let (b6, h6) = no_if-approved _ _ _ h5 in
    let (b7, h7) = no_if-approved _ _ _ h6 in
    let (b8, h8) = no_if-approved _ _ _ h7 in
    let (b9, h9) = no_if-approved _ _ _ h8 in
    let (b10, h10) = no_if-approved _ _ _ h9 in
    let (b11, h11) = no_if-approved _ _ _ h10 in
    let (b12, h12) = no_if-approved _ _ _ h11 in
    let (b13, h13) = no_if-approved _ _ _ h12 in
    let (b14, h14) = no_if-approved _ _ _ h13 in
    let (b15, h15) = no_if-approved _ _ _ h14 in
    let (b16, h16) = no_if-approved _ _ _ h15 in
    let (b17, h17) = no_if-approved _ _ _ h16 in
    let (b18, h18) = no_if-approved _ _ _ h17 in
    let (b19, h19) = no_if-approved _ _ _ h18 in
    let (b20, h20) = no_if-approved _ _ _ h19 in
    let (b21, h21) = no_if-approved _ _ _ h20 in
    let (b22, h22) = no_if-approved _ _ _ h21 in
    let (b23, h23) = no_if-approved _ _ _ h22 in
    let sound = bad_arithmetic-Sound r b2 in
    record {
      valid_ok = self_test-Valid e.limits (sym computed ∙ true_of_not _ b0);
      live_ok = b1;
      arithmetic_ok = sound;
      risk_ok = not_less r.risk_minor e.limits.max_risk_per_trade b3;
      position_ok =
          abs64-Within r.projected_position e.limits.max_position_per_symbol
            (not_less (abs64 r.projected_position) e.limits.max_position_per_symbol b4);
      gross_ok = not_less r.projected_gross e.limits.max_gross_exposure b5;
      net_ok =
          abs64-Within r.projected_net e.limits.max_net_exposure
            (not_less (abs64 r.projected_net) e.limits.max_net_exposure b6);
      leverage_ok = not_less r.leverage_bp e.limits.max_leverage_bp b7;
      margin_ok =
          not_less (pos 0)
            (projected_free_margin r.free_margin r.order_margin r.notional
              e.limits.adverse_shock_bp)
            b8;
      open_ok = not_least r.orders_open e.limits.max_open_orders b9;
      in_flight_ok = not_least r.orders_in_flight e.limits.max_in_flight_per_symbol b10;
      second_ok = not_least r.requests_second e.limits.max_order_requests_per_second b11;
      minute_ok = not_least r.orders_minute e.limits.max_orders_per_minute b12;
      fills_ok = not_least r.filled_minute e.limits.max_fills_per_minute b13;
      day_ok = not_least r.traded_day e.limits.max_trades_per_day b14;
      cadence_ok =
          spaced r.last_order_ns r.now_ns e.limits.min_time_between_orders_ns word sound.clock_sound
            b15;
      spread_ok = not_less r.spread_ticks e.limits.max_spread_ticks b16;
      slippage_ok = not_less r.slippage_ticks e.limits.max_slippage_ticks b17;
      volume_ok = volume_within r.volume e.limits.max_order_volume b18;
      symbol_ok = symbol_within (length e.limits.symbol_allowed) r.symbol_id b19;
      session_ok = true_of_not _ b20;
      reducing_ok = reduces r.reduces_only r.side r.current_net b21;
      warm_ok =
          equal_words (bit_and r.warm_mask e.limits.required_warm_mask) e.limits.required_warm_mask
            b22;
      self_trade_free =
          self_trade_ok-NoSelfTrade r.hedging e.limits.allow_cross_strategy_opposition
            r.position_owner_strategy r.strategy_id r.current_net r.side (true_of_not _ b23);
    }

Passes-check :
    (e : RiskEngine) (r : Request)
    → e.valid ≡ self_test e.limits
    → r.now_ns < u64_mod
    → Passes e r
    → (check e r).approved ≡ true
unfolding check bad_symbol cold too_soon not_reducing
Passes-check e r computed word p =
    no_if-pass _ _ _ (ap not (computed ∙ Valid-self_test e.limits p.valid_ok)) (
      no_if-pass _ _ _ (p.live_ok) (
        no_if-pass _ _ _ (Sound-bad_arithmetic r p.arithmetic_ok) (
          no_if-pass _ _ _ (less_not r.risk_minor e.limits.max_risk_per_trade p.risk_ok) (
            no_if-pass _ _ _
              (less_not (abs64 r.projected_position) e.limits.max_position_per_symbol
                (Within-abs64 r.projected_position e.limits.max_position_per_symbol p.position_ok))
              (no_if-pass _ _ _ (less_not r.projected_gross e.limits.max_gross_exposure p.gross_ok)
                (no_if-pass _ _ _
                  (less_not (abs64 r.projected_net) e.limits.max_net_exposure
                    (Within-abs64 r.projected_net e.limits.max_net_exposure p.net_ok))
                  (no_if-pass _ _ _ (less_not r.leverage_bp e.limits.max_leverage_bp p.leverage_ok)
                    (no_if-pass _ _ _
                      (less_not (pos 0)
                        (projected_free_margin r.free_margin r.order_margin r.notional
                          e.limits.adverse_shock_bp)
                        p.margin_ok)
                      (no_if-pass _ _ _ (least_not r.orders_open e.limits.max_open_orders p.open_ok)
                        (no_if-pass _ _ _
                          (least_not r.orders_in_flight e.limits.max_in_flight_per_symbol
                            p.in_flight_ok)
                          (no_if-pass _ _ _
                            (least_not r.requests_second e.limits.max_order_requests_per_second
                              p.second_ok)
                            (no_if-pass _ _ _
                              (least_not r.orders_minute e.limits.max_orders_per_minute p.minute_ok)
                              (no_if-pass _ _ _
                                (least_not r.filled_minute e.limits.max_fills_per_minute p.fills_ok)
                                (no_if-pass _ _ _
                                  (least_not r.traded_day e.limits.max_trades_per_day p.day_ok)
                                  (no_if-pass _ _ _
                                    (unspaced r.last_order_ns r.now_ns
                                      e.limits.min_time_between_orders_ns word p.cadence_ok)
                                    (no_if-pass _ _ _
                                      (less_not r.spread_ticks e.limits.max_spread_ticks
                                        p.spread_ok)
                                      (no_if-pass _ _ _
                                        (less_not r.slippage_ticks e.limits.max_slippage_ticks
                                          p.slippage_ok)
                                        (no_if-pass _ _ _
                                          (within_volume r.volume e.limits.max_order_volume
                                            p.volume_ok)
                                          (no_if-pass _ _ _
                                            (within_symbol (length e.limits.symbol_allowed)
                                              r.symbol_id p.symbol_ok)
                                            (no_if-pass _ _ _ (ap not p.session_ok) (
                                              no_if-pass _ _ _
                                                (Reduces-back r.reduces_only r.side r.current_net
                                                  p.reducing_ok)
                                                (no_if-pass _ _ _
                                                  (words_equal
                                                    (bit_and r.warm_mask
                                                      e.limits.required_warm_mask)
                                                    e.limits.required_warm_mask p.warm_ok)
                                                  (no_if-pass _ _ _
                                                    (ap not (
                                                      NoSelfTrade-self_trade_ok r.hedging
                                                        e.limits.allow_cross_strategy_opposition
                                                        r.position_owner_strategy r.strategy_id
                                                        r.current_net r.side p.self_trade_free))
                                                    (refl))))))))))))))))))))))))

-- For an engine whose flag `valid` is the self-test of its limits, as its constructor sets it, and a clock
-- of 64 bits: a request is approved if and only if the limits are positive and agree with one another, the
-- engine is not halted, the request's numbers are sound, and it is within every one of the limits.
pub check_iff :
    (e : RiskEngine) (r : Request)
    → e.valid ≡ self_test e.limits
    → r.now_ns < u64_mod
    → ((check e r).approved ≡ true) ↔ Passes e r
check_iff e r computed word = (check-Passes e r computed word, Passes-check e r computed word)

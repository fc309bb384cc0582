-- ===== src/Risk/Tests.antt =====
-- The theorems on limits, margin and the ledger at concrete requests.
use market_microstructure_en.Base.{
  ℕ, ◌+◌, ◌%◌, ◌≡◌, ◌↔◌, ◌&&◌, refl, arith, true, false, List, [], ◌∷◌, none, some, if◌then◌else◌,
  leb, ◌^◌, ◌*◌, ◌-◌, length,
}
use market_microstructure_en.Base.Int.{pos, negsuc, ◌≤ℤ◌}
use market_microstructure_en.Exec.Types.{BrokerOrderRef, buy, ref_eq}
use market_microstructure_en.Risk.Limits.{default_limits, HaltSignals}
use market_microstructure_en.Risk.Margin.{projected_free_margin}
use market_microstructure_en.Risk.Margin.Exact.{shock_of, projected_free_margin_exact}
use market_microstructure_en.Risk.Engine.{RiskEngine, make_engine, Request, check}
use market_microstructure_en.Risk.Engine.Approves.{Passes, check_iff}
use market_microstructure_en.Risk.Ledger.{
  Dim, strategy_dim, venue_dim, symbol_dim, global_dim, DimensionLimits, RiskLedgerConfig,
  RiskLedger, make_ledger, limits_of, find_id,
}
use market_microstructure_en.Risk.Ledger.Table.{
  Reservation, no_reservation, home_position, find_reservation, probe, probe_loop, stops_at,
}
use market_microstructure_en.Risk.Ledger.Table.Lost.{Behind, freed_loses}
use market_microstructure_en.Risk.Ledger.Operations.{reserve, reserve_for, free_reservation}
use market_microstructure_en.Risk.Ledger.Undo.{reserve_refused}
use market_microstructure_en.Risk.Ledger.Within.{Within, reserve-Within}

abbrev engine : RiskEngine
engine = make_engine default_limits

abbrev request : Request
request = record {
  symbol_id = 1;
  strategy_id = 1;
  side = buy;
  volume = pos 10;
  risk_minor = pos 10;
  projected_position = pos 10;
  projected_gross = pos 10;
  projected_net = pos 10;
  notional = pos 1000;
  order_margin = pos 100;
  free_margin = pos 100000;
  leverage_bp = pos 100;
  spread_ticks = pos 1;
  slippage_ticks = pos 1;
  orders_open = 1;
  orders_in_flight = 1;
  requests_second = 1;
  orders_minute = 1;
  filled_minute = 1;
  traded_day = 1;
  now_ns = 10;
  last_order_ns = 5;
  warm_mask = 1;
  session_open = true;
  reduces_only = false;
  current_net = pos 0;
  position_owner_strategy = 1;
  hedging = false;
}

check_iff_example : ((check engine request).approved ≡ true) ↔ Passes engine request
unfolding make_engine
check_iff_example = check_iff engine request refl (omega arith)

abbrev signals : HaltSignals
signals = record {
  pnl = pos 0;
  equity = pos 100;
  peak_equity = pos 100;
  losses = 0;
  feed_age_ms = 0;
  disk_free_bytes = 2 ^ 40;
  ring_percent = 10;
  reject_rate_bp = 0;
  gap = false;
  latency_breach = false;
  connected = true;
  reconciliation_break = false;
  lock_held = true;
  epoch_stale = false;
  killed_by_hand = false;
  killed_by_control = false;
}

projected_free_margin_exact_example :
    projected_free_margin (pos 1000) (pos 100) (pos 5001) (pos 200) ≡ (
      if leb (5001 * 200 + 9999) (2 ^ 63 - 1) && leb (100 + shock_of 5001 200) 1000
      then pos (1000 - (100 + shock_of 5001 200))
      else negsuc 0)
projected_free_margin_exact_example = projected_free_margin_exact 1000 100 5001 200

abbrev dimension_limits : DimensionLimits
dimension_limits = record {
  open_order_limit = pos 100;
  position_limit = pos 100;
  credit_budget = pos 100;
}

abbrev ledger_config : RiskLedgerConfig
ledger_config = record {
  max_order_volume = pos 50;
  global = dimension_limits;
  per_strategy = dimension_limits;
  per_venue = dimension_limits;
  per_symbol = dimension_limits;
}

abbrev ledger : RiskLedger
ledger = make_ledger 2 2 4 ledger_config

abbrev ledger_ref : BrokerOrderRef
ledger_ref = record { run_id = 0; logical_order_id = 6 }

refused : (reserve ledger 0 9 1 buy (pos 10) ledger_ref).0 ≡ false
unfolding reserve reserve_for make_ledger find_reservation probe probe_loop stops_at find_id
refused = refl

reserve_refused_example : (reserve ledger 0 9 1 buy (pos 10) ledger_ref).1 ≡ ledger
reserve_refused_example = reserve_refused ledger 0 9 1 buy (pos 10) ledger_ref refused

ledger-Within : Within ledger
unfolding make_ledger limits_of
ledger-Within = record { exposure_ok = exposure; credit_ok = credit }
  where
    exposure : (d : Dim) → pos 0 ≤ℤ (limits_of ledger_config d).open_order_limit
    exposure (strategy_dim i) = omega arith
    exposure (venue_dim i) = omega arith
    exposure (symbol_dim i) = omega arith
    exposure global_dim = omega arith

    credit : (d : Dim) → pos 0 ≤ℤ (limits_of ledger_config d).credit_budget
    credit (strategy_dim i) = omega arith
    credit (venue_dim i) = omega arith
    credit (symbol_dim i) = omega arith
    credit global_dim = omega arith

-- The ledger with one venue registered.
abbrev venue_ledger : RiskLedger
venue_ledger = record ledger { venues = record { registered = true; id = 9 } ∷ [] }

venue_ledger-Within : Within venue_ledger
unfolding make_ledger
venue_ledger-Within = record {
  exposure_ok = ledger-Within.exposure_ok;
  credit_ok = ledger-Within.credit_ok;
}

reserve-Within_example : Within (reserve venue_ledger 0 9 1 buy (pos 10) ledger_ref).1
reserve-Within_example =
    reserve-Within venue_ledger 0 9 1 buy (pos 10) ledger_ref venue_ledger-Within

-- Two orders whose home is position 2 of 4.
abbrev held : ℕ → Reservation
held id = record no_reservation {
  occupied = true;
  ref = record { run_id = 0; logical_order_id = id };
}

abbrev table : List Reservation
table = no_reservation ∷ no_reservation ∷ held 2 ∷ held 6 ∷ []

abbrev crowded : RiskLedger
crowded = record ledger { reservations = table }

table-Behind : Behind table ledger_ref (record { run_id = 0; logical_order_id = 2 })
unfolding ref_eq
table-Behind = record {
  long = omega arith;
  same_home = refl;
  taken = refl;
  taken_by = refl;
  other = refl;
  there = refl;
  own = refl;
}

freed_loses_example :
    (find_reservation crowded.reservations ledger_ref
      ≡ some ((home_position crowded.reservations ledger_ref + 1) % length crowded.reservations))
    × (find_reservation
          (free_reservation crowded (record { run_id = 0; logical_order_id = 2 })).reservations
          ledger_ref
        ≡ none)
freed_loses_example =
    freed_loses crowded ledger_ref (record { run_id = 0; logical_order_id = 2 }) table-Behind

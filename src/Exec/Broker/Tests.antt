-- ===== src/Exec/Broker/Tests.antt =====
-- A broker that never had a quote, and one with a finished order.
use market_microstructure_en.Base.{ℕ, ◌+◌, ◌≡◌, true, false, none, some, [], ◌∷◌, length, refl}
use market_microstructure_en.Base.Int.{pos, leb_ℤ, ◌+ℤ◌, ◌-ℤ◌, ◌*ℤ◌, quot}
use market_microstructure_en.Exec.Types.{
  make_logical_order_id, buy, limit, cancelled, acknowledged, stale_quote, corrupted_state,
  default_order, remaining,
}
use market_microstructure_en.Exec.Account.{
  remainder, price_aligned, open_ticket, place, closed_slot,
}
use market_microstructure_en.Exec.Models.{pessimistic}
use market_microstructure_en.Exec.Broker.State.{
  BrokerConfig, PaperBroker, make_broker, specs_from, has_seen, mix, order_at,
}
use market_microstructure_en.Exec.Broker.Entry.{
  OrderRequest, request_check, quote_check, price_check, reduce_check, terminal_slot, submit,
}
use market_microstructure_en.Exec.Broker.Fills.{on_quote, book_fill, apply_fill}
use market_microstructure_en.Exec.Broker.Unrecoverable.{extended, fill_unrecoverable}
use market_microstructure_en.Portfolio.{hedging}
use market_microstructure_en.Risk.Limits.{no_halt}
use market_microstructure_en.Oms.Recovery.Recover.{recover}
use market_microstructure_en.Exec.Broker.Refused.{submit_times, slots_leak}
use market_microstructure_en.Exec.Broker.Final.{on_quote-final}

abbrev config : BrokerConfig
config = record {
  run_id = 1;
  run_seed = 42;
  mode = pessimistic;
  hedging = true;
  initial_balance_minor = pos 1000000;
  stop_out_level_bp = pos 5000;
  stale_quote_ns = 1000;
  queue_validated = false;
}

abbrev silent : PaperBroker
silent = make_broker config

abbrev order_for : ℕ → OrderRequest
order_for seq = record {
  corr_id = seq;
  strategy_id = 1;
  symbol_id = 2;
  side = buy;
  type = limit;
  volume = pos 1;
  limit_price_ticks = pos 100;
  seq_global = seq;
  expire_ns = 0;
  reduce_only = false;
}

passes_first : request_check silent (order_for 1) 5 ≡ none
unfolding request_check price_check reduce_check make_broker specs_from has_seen remainder ◌-ℤ◌ ◌*ℤ◌
    quot price_aligned make_logical_order_id mix
passes_first = refl

other_passes : request_check silent (order_for 2) 5 ≡ none
unfolding request_check price_check reduce_check make_broker specs_from has_seen remainder ◌-ℤ◌ ◌*ℤ◌
    quot price_aligned make_logical_order_id mix
other_passes = refl

fails_later : quote_check silent (order_for 1) 5 ≡ some stale_quote
unfolding quote_check make_broker
fails_later = refl

none_finished : terminal_slot silent.orders ≡ none
unfolding terminal_slot make_broker
none_finished = refl

all_free : 256 + length silent.orders ≡ 256
unfolding make_broker
all_free = refl

slots_leak_example :
    (submit (submit_times 256 silent (order_for 1) 5) (order_for 2) 5).0.reason ≡ corrupted_state
slots_leak_example =
    slots_leak 256 silent (order_for 1) (order_for 2) 5 stale_quote passes_first fails_later
      none_finished all_free other_passes

-- A cancelled order before one that waits for a fill.
abbrev waiting : PaperBroker
waiting = record silent {
  orders =
      record default_order { state = cancelled; symbol_id = 2; requested_volume = pos 5 }
      ∷ record default_order { state = acknowledged; symbol_id = 2; requested_volume = pos 5 }
      ∷ [];
}

on_quote-final_example :
    order_at (on_quote waiting 2 (pos 100) (pos 101) (pos 3) (pos 3) 5) 0 ≡ order_at waiting 0
on_quote-final_example = on_quote-final waiting 2 (pos 100) (pos 101) (pos 3) (pos 3) 5 0 refl

completes : leb_ℤ (remaining (order_at (book_fill waiting 1 (pos 101) (pos 5) 7) 1)) (pos 0) ≡ true
unfolding book_fill remaining ◌-ℤ◌ make_broker open_ticket place closed_slot ◌+ℤ◌
completes = refl

fill_unrecoverable_example :
    recover (extended (apply_fill waiting 1 (pos 101) (pos 5) 7).journal []) hedging false no_halt
    ≡ none
fill_unrecoverable_example =
    fill_unrecoverable waiting 1 (pos 101) (pos 5) 7 completes [] hedging false no_halt

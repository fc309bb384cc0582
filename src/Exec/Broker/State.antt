-- ===== src/Exec/Broker/State.antt =====
-- include/exec/paper_broker.hpp: the broker's state, its account, and the steps of an order.
use Prim.Native.Nat.{bit_xor}
use market_microstructure_en.Base.{
  ℕ, zero, suc, ◌+◌, ◌-◌, ◌%◌, Bool, true, false, ◌&&◌, ◌||◌, not, ◌==◌, if◌then◌else◌, List, [],
  ◌∷◌, get_or, set, replicate, Option, none, some,
}
use market_microstructure_en.Base.Int.{ℤ, pos, ◌+ℤ◌, ◌-ℤ◌, ltb_ℤ}
use market_microstructure_en.Base.Words.{add64, mul64, shr}
use market_microstructure_en.Exec.Types.{
  BrokerOrderRef, ref_eq, Side, buy, sell, OrderType, market, limit, stop, stop_limit, OrderState,
  new_order, risk_rejected, pending_send, sent, acknowledged, rejected, unknown, partially_filled,
  filled, cancel_pending, cancelled, expired, is_terminal, RejectReason, no_reason, invalid_price,
  invalid_volume, invalid_timestamp, duplicate_order_id, unknown_symbol, insufficient_margin,
  volume_below_minimum, volume_above_maximum, volume_not_step_aligned, price_not_tick_aligned,
  stops_level_violation, market_closed, stale_quote, impossible_fill, corrupted_state,
  probabilistic_reject, reduce_only_no_position, reduce_only_excess_volume, Order, default_order,
  remaining,
}
use market_microstructure_en.Exec.Account.{
  Position, SymbolSpec, PositionBook, empty_book, is_closed, required_minor, stop_out, open_count,
  position_pnl_minor,
}
use market_microstructure_en.Exec.Journal.{
  JournalRecordType, order_state, account_update, pnl_update, Journal, empty_journal, emit,
}
use market_microstructure_en.Exec.Models.{SimulationMode}

abbrev pub max_live_orders : ℕ
max_live_orders = 256

abbrev pub max_symbols : ℕ
max_symbols = 8

pub record AccountState : Type 0 where
  pub balance_minor : ℤ
  pub equity_minor : ℤ
  pub margin_used_minor : ℤ
  pub free_margin_minor : ℤ
  pub realized_pnl_minor : ℤ
  pub unrealized_pnl_minor : ℤ
  pub commission_paid_minor : ℤ
  pub open_positions : ℕ
  pub open_orders : ℕ
  pub stopped_out : Bool

pub record BrokerConfig : Type 0 where
  pub run_id : ℕ
  pub run_seed : ℕ
  pub mode : SimulationMode
  pub hedging : Bool
  pub initial_balance_minor : ℤ
  pub stop_out_level_bp : ℤ
  pub stale_quote_ns : ℕ
  pub queue_validated : Bool

pub record MarketState : Type 0 where
  pub bid_ticks : ℤ
  pub ask_ticks : ℤ
  pub bid_size : ℤ
  pub ask_size : ℤ
  pub quote_ns : ℕ
  pub valid : Bool

abbrev pub no_market : MarketState
no_market = record {
  bid_ticks = pos 0;
  ask_ticks = pos 0;
  bid_size = pos 0;
  ask_size = pos 0;
  quote_ns = 0;
  valid = false;
}

abbrev pub spread_ticks : MarketState → ℤ
spread_ticks m = m.ask_ticks -ℤ m.bid_ticks

abbrev pub default_spec : ℕ → SymbolSpec
default_spec symbol_id = record {
  symbol_id = symbol_id;
  tick_size_ticks = pos 1;
  volume_min = pos 1;
  volume_max = pos 100000;
  volume_step = pos 1;
  stops_level_ticks = pos 0;
  freeze_level_ticks = pos 0;
  contract_size = pos 100000;
  tick_value_minor = pos 1;
  commission_per_lot_minor = pos 0;
  margin_rate_bp = pos 100;
  tradable = true;
}

abbrev pub seen_slots : ℕ
seen_slots = 1024

abbrev pub seen_probe : ℕ
seen_probe = 8

-- `orders_[0, live_count_)` is the list `orders`.
pub record PaperBroker : Type 0 where
  pub config : BrokerConfig
  pub account : AccountState
  pub book : PositionBook
  pub journal : Journal
  pub orders : List Order
  pub order_ticket : List ℕ
  pub seen : List ℕ
  pub specs : List SymbolSpec
  pub markets : List MarketState
  pub ticket_seq : ℕ
  pub last_ticket : ℕ
  pub fill_count : ℕ
  pub last_submit_ns : ℕ
  pub reserved_margin_minor : ℤ
  pub is_halted : Bool
  pub halt_reason : RejectReason

unfoldable pub specs_from : ℕ → ℕ → List SymbolSpec
specs_from zero i = []
specs_from (suc n) i = default_spec i ∷ specs_from n (suc i)

unfoldable pub make_broker : BrokerConfig → PaperBroker
make_broker config = record {
  config = config;
  account = record {
    balance_minor = config.initial_balance_minor;
    equity_minor = config.initial_balance_minor;
    margin_used_minor = pos 0;
    free_margin_minor = config.initial_balance_minor;
    realized_pnl_minor = pos 0;
    unrealized_pnl_minor = pos 0;
    commission_paid_minor = pos 0;
    open_positions = 0;
    open_orders = 0;
    stopped_out = false;
  };
  book = empty_book;
  journal = empty_journal;
  orders = [];
  order_ticket = replicate max_live_orders 0;
  seen = replicate seen_slots 0;
  specs = specs_from max_symbols 0;
  markets = replicate max_symbols no_market;
  ticket_seq = 0;
  last_ticket = 0;
  fill_count = 0;
  last_submit_ns = 0;
  reserved_margin_minor = pos 0;
  is_halted = false;
  halt_reason = no_reason;
}

abbrev pub order_at : PaperBroker → ℕ → Order
order_at b slot = get_or b.orders slot default_order

abbrev pub write_order : PaperBroker → ℕ → Order → PaperBroker
write_order b slot order = record b { orders = set b.orders slot order }

abbrev pub spec_of : PaperBroker → ℕ → SymbolSpec
spec_of b symbol_id = get_or b.specs symbol_id (default_spec 0)

abbrev pub market_of : PaperBroker → ℕ → MarketState
market_of b symbol_id = get_or b.markets symbol_id no_market

unfoldable pub set_symbol : PaperBroker → SymbolSpec → PaperBroker
set_symbol b spec = record b { specs = set b.specs spec.symbol_id spec }

-- The numbers of the enumerators.
abbrev pub side_code : Side → ℕ
side_code buy = 0
side_code sell = 1

abbrev pub order_type_code : OrderType → ℕ
order_type_code market = 0
order_type_code limit = 1
order_type_code stop = 2
order_type_code stop_limit = 3

abbrev pub state_code : OrderState → ℕ
state_code new_order = 0
state_code risk_rejected = 1
state_code pending_send = 2
state_code sent = 3
state_code acknowledged = 4
state_code rejected = 5
state_code unknown = 6
state_code partially_filled = 7
state_code filled = 8
state_code cancel_pending = 9
state_code cancelled = 10
state_code expired = 11

abbrev pub reason_code : RejectReason → ℕ
reason_code no_reason = 0
reason_code invalid_price = 1
reason_code invalid_volume = 2
reason_code invalid_timestamp = 3
reason_code duplicate_order_id = 4
reason_code unknown_symbol = 5
reason_code insufficient_margin = 6
reason_code volume_below_minimum = 7
reason_code volume_above_maximum = 8
reason_code volume_not_step_aligned = 9
reason_code price_not_tick_aligned = 10
reason_code stops_level_violation = 11
reason_code market_closed = 12
reason_code stale_quote = 13
reason_code impossible_fill = 14
reason_code corrupted_state = 15
reason_code probabilistic_reject = 16
reason_code reduce_only_no_position = 17
reason_code reduce_only_excess_volume = 18

-- `(void)journal_.emit(...)`
unfoldable pub record_event :
    PaperBroker → JournalRecordType → ℕ → ℕ → ℕ → ℕ → ℤ → ℤ → ℤ → ℤ → PaperBroker
record_event b type now_ns logical_order_id symbol_id ticket a1 b1 c1 d1 = record b {
  journal =
      (emit b.journal type now_ns b.config.run_id logical_order_id symbol_id ticket a1 b1 c1 d1).1;
}

unfoldable pub halt : PaperBroker → RejectReason → PaperBroker
halt b why = if b.is_halted then b else record b { is_halted = true; halt_reason = why }

unfoldable pub transition : PaperBroker → ℕ → OrderState → ℕ → PaperBroker
transition b slot next now_ns =
    let order = order_at b slot in
    record_event (write_order b slot (record order { state = next })) order_state now_ns
      order.ref.logical_order_id order.symbol_id 0 (pos (state_code order.state))
      (pos (state_code next)) order.filled_volume (remaining order)

-- The unrealized profit of one open position, and the loop of `recompute_account` over the positions.
unfoldable pub marked : PaperBroker → Position → ℤ
marked b p =
    let m = market_of b p.symbol_id in
    let mark = elim p.side as (λ _. ℤ) [ buy ↦ m.bid_ticks | sell ↦ m.ask_ticks ] in
    if ltb_ℤ (pos 0) mark then position_pnl_minor p (spec_of b p.symbol_id) mark else pos 0

unfoldable pub sum_positions : PaperBroker → List Position → ℤ → ℤ → ℤ × ℤ
unfolding marked
sum_positions b [] unrealized margin = (unrealized, margin)
sum_positions b (p ∷ ps) unrealized margin =
    sum_positions b ps (if is_closed p.state then unrealized else unrealized +ℤ marked b p) (
      if is_closed p.state
      then margin
      else margin +ℤ required_minor (spec_of b p.symbol_id) p.volume p.avg_price_ticks)

-- The account after `recompute_account`, before the test for a stop-out.
unfoldable pub revalued : PaperBroker → AccountState
unfolding sum_positions
revalued b =
    let (unrealized, margin) = sum_positions b b.book.positions (pos 0) (pos 0) in
    let used = margin +ℤ b.reserved_margin_minor in
    let equity = b.account.balance_minor +ℤ unrealized in
    record b.account {
      unrealized_pnl_minor = unrealized;
      margin_used_minor = used;
      equity_minor = equity;
      free_margin_minor = equity -ℤ used;
      open_positions = open_count b.book;
    }

unfoldable pub recompute_account : PaperBroker → ℕ → PaperBroker
unfolding revalued halt record_event
recompute_account b now_ns =
    let a = revalued b in
    let b' = record b { account = a } in
    if not a.stopped_out && stop_out a.equity_minor a.margin_used_minor b.config.stop_out_level_bp
    then halt
        (record_event (record b { account = record a { stopped_out = true } }) account_update now_ns
          0 0 0 a.balance_minor a.equity_minor a.margin_used_minor
          (pos (reason_code insufficient_margin)))
        insufficient_margin
    else b'

unfoldable pub refresh_account : PaperBroker → ℕ → PaperBroker
unfolding recompute_account record_event
refresh_account b now_ns =
    let b1 = recompute_account b now_ns in
    let a = b1.account in
    let b2 =
      record_event b1 account_update now_ns 0 0 0 a.balance_minor a.equity_minor a.margin_used_minor
        a.free_margin_minor in
    record_event b2 pnl_update now_ns 0 0 0 a.realized_pnl_minor a.unrealized_pnl_minor
      a.commission_paid_minor (pos 0)

unfoldable pub release_reservation : PaperBroker → Order → PaperBroker
release_reservation b order =
    let touched =
      if ltb_ℤ (pos 0) order.avg_fill_price_ticks
      then order.avg_fill_price_ticks
      else (market_of b order.symbol_id).ask_ticks in
    let reference = elim order.type as (λ _. ℤ) [ limit ↦ order.limit_price_ticks | _ ↦ touched ] in
    let margin = required_minor (spec_of b order.symbol_id) order.requested_volume reference in
    record b {
      reserved_margin_minor =
          if ltb_ℤ margin b.reserved_margin_minor then b.reserved_margin_minor -ℤ margin else pos 0;
    }

-- `if (account_.open_orders > 0) --account_.open_orders;`
abbrev pub close_order : PaperBroker → PaperBroker
close_order b = record b { account = record b.account { open_orders = b.account.open_orders - 1 } }

unfoldable pub finish : PaperBroker → ℕ → OrderState → ℕ → PaperBroker
unfolding transition release_reservation refresh_account
finish b slot terminal now_ns =
    let b1 = transition b slot terminal now_ns in
    let b2 = write_order b1 slot (record (order_at b1 slot) { ts_terminal_ns = now_ns }) in
    refresh_account (close_order (release_reservation b2 (order_at b2 slot))) now_ns

-- The 64-bit mixer of the set of seen orders.
unfoldable pub mix : ℕ → ℕ
mix x =
    let x0 = add64 x 0x9E3779B97F4A7C15 in
    let x1 = mul64 (bit_xor x0 (shr x0 30)) 0xBF58476D1CE4E5B9 in
    let x2 = mul64 (bit_xor x1 (shr x1 27)) 0x94D049BB133111EB in bit_xor x2 (shr x2 31)

abbrev pub seen_home : ℕ → ℕ
seen_home id = mix id % seen_slots

-- The loop of `has_seen`, on the steps left.
unfoldable pub seen_from : List ℕ → ℕ → ℕ → ℕ → Bool
seen_from seen home id zero = false
seen_from seen home id (suc left) =
    let slot = get_or seen ((home + (seen_probe - suc left)) % seen_slots) 0 in
    let rest = seen_from seen home id left in
    if slot == 0 then false else if slot == id then true else rest

unfoldable pub has_seen : PaperBroker → BrokerOrderRef → Bool
unfolding seen_from
has_seen b ref =
    if not (ref.run_id == b.config.run_id) || ref.logical_order_id == 0
    then false
    else seen_from b.seen (seen_home ref.logical_order_id) ref.logical_order_id seen_probe

-- The loop of `remember`: the place that is written, or none if the run is full.
unfoldable pub remember_from : List ℕ → ℕ → ℕ → ℕ → Option ℕ
remember_from seen home id zero = none
remember_from seen home id (suc left) =
    let place = (home + (seen_probe - suc left)) % seen_slots in
    let slot = get_or seen place 0 in
    let rest = remember_from seen home id left in
    if slot == 0 || slot == id then some place else rest

unfoldable pub remember : PaperBroker → BrokerOrderRef → PaperBroker
unfolding remember_from
remember b ref =
    let id = ref.logical_order_id in
    if id == 0 then b else elim (remember_from b.seen (seen_home id) id seen_probe) [
      | some place ↦ record b { seen = set b.seen place id }
      | none ↦ record b { seen = set b.seen (seen_home id) id }
    ]

-- The loop of `find_live`.
unfoldable pub live_slot : List Order → BrokerOrderRef → Option ℕ
live_slot [] ref = none
live_slot (o ∷ os) ref =
    let rest = live_slot os ref in
    if ref_eq o.ref ref && not (is_terminal o.state)
    then some 0
    else elim rest [ none ↦ none | some i ↦ some (suc i) ]

-- ===== src/Exec/Broker/Entry.antt =====
-- include/exec/paper_broker.hpp: submitting, cancelling and replacing orders.
use market_microstructure_en.Base.{
  ◌*◌, ◌/◌, ℕ, suc, ◌+◌, ◌-◌, Bool, true, false, ◌&&◌, ◌||◌, not, ◌==◌, ltb, leb, if◌then◌else◌,
  List, [], ◌∷◌, ◌++◌, length, set, Option, none, some,
}
use market_microstructure_en.Base.Int.{pos_part, ℤ, pos, ◌+ℤ◌, ◌==ℤ◌, ltb_ℤ, leb_ℤ}
use market_microstructure_en.Base.Words.{add64}
use market_microstructure_en.Base.Doubles.{round_double}
use market_microstructure_en.Exec.Types.{
  BrokerOrderRef, make_logical_order_id, Side, buy, sell, OrderType, pending_send, sent,
  cancel_pending, cancelled, is_terminal, is_unknown, RejectReason, no_reason, invalid_price,
  invalid_volume, invalid_timestamp, duplicate_order_id, unknown_symbol, insufficient_margin,
  volume_below_minimum, volume_above_maximum, volume_not_step_aligned, price_not_tick_aligned,
  market_closed, stale_quote, impossible_fill, corrupted_state, reduce_only_no_position,
  reduce_only_excess_volume, Order, default_order, remaining,
}
use market_microstructure_en.Exec.Account.{
  Position, SymbolSpec, is_closed, required_minor, remainder, volume_valid, price_aligned,
}
use market_microstructure_en.Exec.Journal.{command, rejection, cancel, replace}
use market_microstructure_en.Exec.Models.{sample_ns, queue_placement}
use market_microstructure_en.Exec.Broker.State.{
  PaperBroker, MarketState, spread_ticks, order_at, write_order, spec_of, market_of, side_code,
  order_type_code, reason_code, record_event, transition, refresh_account, finish, has_seen,
  remember, live_slot, max_live_orders, max_symbols,
}
use market_microstructure_en.Exec.Broker.Positions.{same_side, opposite, is_limit, is_market}

pub record OrderRequest : Type 0 where
  pub corr_id : ℕ
  pub strategy_id : ℕ
  pub symbol_id : ℕ
  pub side : Side
  pub type : OrderType
  pub volume : ℤ
  pub limit_price_ticks : ℤ
  pub seq_global : ℕ
  pub expire_ns : ℕ
  pub reduce_only : Bool

pub record SubmitResult : Type 0 where
  pub accepted : Bool
  pub ref : BrokerOrderRef
  pub reason : RejectReason

unfoldable pub request_ref : PaperBroker → OrderRequest → BrokerOrderRef
request_ref b r = record {
  run_id = b.config.run_id;
  logical_order_id = make_logical_order_id r.strategy_id r.symbol_id r.seq_global;
}

-- The lambda `reject` of `submit`.
unfoldable pub refuse : PaperBroker → OrderRequest → RejectReason → ℕ → SubmitResult × PaperBroker
unfolding record_event request_ref
refuse b r why now_ns =
    let ref = request_ref b r in
    (
      record { accepted = false; ref = ref; reason = why },
      record_event b rejection now_ns ref.logical_order_id r.symbol_id 0 (pos (reason_code why))
          r.volume r.limit_price_ticks (pos 0),
    )

-- The loop of `reducible_volume`.
unfoldable pub reducible_from : List Position → ℕ → Side → ℤ → ℤ
reducible_from [] symbol_id order_side total = total
reducible_from (p ∷ ps) symbol_id order_side total = reducible_from ps symbol_id order_side (
    if p.symbol_id == symbol_id && same_side p.side (opposite order_side) && not (is_closed p.state)
    then total +ℤ p.volume
    else total)

unfoldable pub reducible_volume : PaperBroker → ℕ → Side → ℤ
unfolding reducible_from
reducible_volume b symbol_id order_side =
    reducible_from b.book.positions symbol_id order_side (pos 0)

-- `if (found) return reject(reason);`
abbrev pub first_of : Bool → RejectReason → Option RejectReason → Option RejectReason
first_of found why rest = if found then some why else rest

-- The checks of a limit price, and of a reduce-only order.
unfoldable pub price_check : OrderRequest → SymbolSpec → Option RejectReason → Option RejectReason
price_check r spec rest =
    first_of (is_limit r.type && leb_ℤ r.limit_price_ticks (pos 0)) invalid_price (
      first_of (is_limit r.type && not (price_aligned spec r.limit_price_ticks))
        price_not_tick_aligned rest)

unfoldable pub reduce_check : PaperBroker → OrderRequest → Option RejectReason → Option RejectReason
reduce_check b r rest =
    let reducible = reducible_volume b r.symbol_id r.side in
    first_of (r.reduce_only && leb_ℤ reducible (pos 0)) reduce_only_no_position
      (first_of (r.reduce_only && ltb_ℤ reducible r.volume) reduce_only_excess_volume rest)

-- The checks of `submit` before a slot is taken.
unfoldable pub request_check : PaperBroker → OrderRequest → ℕ → Option RejectReason
unfolding price_check reduce_check request_ref
request_check b r now_ns =
    let spec = spec_of b r.symbol_id in
    first_of (not (is_market r.type) && not (is_limit r.type)) impossible_fill (
      first_of (ltb now_ns b.last_submit_ns) invalid_timestamp (
        first_of (leb max_symbols r.symbol_id) unknown_symbol (
          first_of (not spec.tradable) market_closed (
            first_of (leb_ℤ r.volume (pos 0)) invalid_volume (
              first_of (ltb_ℤ r.volume spec.volume_min) volume_below_minimum (
                first_of (ltb_ℤ spec.volume_max r.volume) volume_above_maximum (
                  first_of
                    (leb_ℤ spec.volume_step (pos 0)
                      || not (remainder r.volume spec.volume_step ==ℤ pos 0))
                    volume_not_step_aligned
                    (price_check r spec (
                      reduce_check b r
                        (first_of (has_seen b (request_ref b r)) duplicate_order_id none))))))))))

-- The loop of `submit` that looks for a slot to use again.
unfoldable pub terminal_slot : List Order → Option ℕ
terminal_slot [] = none
terminal_slot (o ∷ os) =
    let rest = terminal_slot os in
    if is_terminal o.state then some 0 else elim rest [ none ↦ none | some i ↦ some (suc i) ]

-- The slot for a new order, and the broker with `live_count_` grown where no slot is used again.
unfoldable pub take_slot : PaperBroker → Option (ℕ × PaperBroker)
unfolding terminal_slot
take_slot b = elim (terminal_slot b.orders) [
  | some slot ↦ some (slot, b)
  | none ↦
      if leb max_live_orders (length b.orders)
      then none
      else some (length b.orders, record b { orders = b.orders ++ (default_order ∷ []) })
]

abbrev pub quote_is_stale : PaperBroker → MarketState → ℕ → Bool
quote_is_stale b m now_ns =
    leb m.quote_ns now_ns && ltb b.config.stale_quote_ns (now_ns - m.quote_ns)

-- The margin that an order reserves: at its limit, or at the touch.
unfoldable pub order_margin : PaperBroker → OrderRequest → ℤ
order_margin b r =
    let m = market_of b r.symbol_id in
    let touch = elim r.side as (λ _. ℤ) [ buy ↦ m.ask_ticks | sell ↦ m.bid_ticks ] in
    required_minor (spec_of b r.symbol_id) r.volume
      (if is_limit r.type then r.limit_price_ticks else touch)

unfoldable pub quote_check : PaperBroker → OrderRequest → ℕ → Option RejectReason
unfolding order_margin
quote_check b r now_ns =
    let m = market_of b r.symbol_id in
    first_of (not m.valid) stale_quote (
      first_of (quote_is_stale b m now_ns) stale_quote
        (first_of (ltb_ℤ b.account.free_margin_minor (order_margin b r)) insufficient_margin none))

-- The size is rounded to the nearest double; half of that is exact.
unfoldable pub queue_at_placement : PaperBroker → Side → MarketState → ℤ
queue_at_placement b side m =
    let size_at_level = elim side as (λ _. ℤ) [ buy ↦ m.bid_size | sell ↦ m.ask_size ] in
    if leb_ℤ size_at_level (pos 0)
    then pos 0
    else pos (round_double (pos_part size_at_level) * queue_placement b.config.mode / 2)

unfoldable pub new_order_of : PaperBroker → OrderRequest → ℕ → Order
unfolding request_ref queue_at_placement
new_order_of b r now_ns =
    let m = market_of b r.symbol_id in
    record default_order {
      ref = request_ref b r;
      corr_id = r.corr_id;
      symbol_id = r.symbol_id;
      side = r.side;
      type = r.type;
      requested_volume = r.volume;
      limit_price_ticks = r.limit_price_ticks;
      ts_submit_ns = now_ns;
      expire_ns = r.expire_ns;
      reduce_only = r.reduce_only;
      queue_validated = b.config.queue_validated;
      ts_effective_ns =
          add64 now_ns (sample_ns b.config.run_seed r.corr_id b.config.mode (spread_ticks m));
      queue_ahead = if is_limit r.type then queue_at_placement b r.side m else pos 0;
      state = pending_send;
    }

-- `submit` for a request that passed every check.
unfoldable pub accept : PaperBroker → OrderRequest → ℕ → ℕ → SubmitResult × PaperBroker
unfolding new_order_of transition record_event remember refresh_account request_ref order_margin
accept b r slot now_ns =
    let order = new_order_of b r now_ns in
    let b1 = record b {
      orders = set b.orders slot order;
      order_ticket = set b.order_ticket slot 0;
      reserved_margin_minor = b.reserved_margin_minor +ℤ order_margin b r;
    } in
    let b2 =
      record_event (transition b1 slot sent now_ns) command now_ns order.ref.logical_order_id
        order.symbol_id 0 (pos (side_code order.side)) order.requested_volume
        order.limit_price_ticks (pos (order_type_code order.type)) in
    let b3 = remember b2 order.ref in
    let b4 = record b3 {
      last_submit_ns = now_ns;
      account = record b3.account { open_orders = b3.account.open_orders + 1 };
    } in
    (
      record { accepted = true; ref = request_ref b r; reason = no_reason },
      refresh_account b4 now_ns,
    )

unfoldable pub submit : PaperBroker → OrderRequest → ℕ → SubmitResult × PaperBroker
unfolding refuse accept take_slot request_check quote_check
submit b r now_ns = elim (request_check b r now_ns) [
  | some why ↦ refuse b r why now_ns
  | none ↦ elim (take_slot b) [
    | none ↦ refuse b r corrupted_state now_ns
    | some (slot, b') ↦ elim (quote_check b' r now_ns) [
      | some why ↦ refuse b' r why now_ns
      | none ↦ accept b' r slot now_ns
    ]
  ]
]

unfoldable pub cancel_order : PaperBroker → BrokerOrderRef → ℕ → Bool × PaperBroker
unfolding transition record_event finish
cancel_order b ref now_ns = elim (live_slot b.orders ref) [
  | none ↦ (false, b)
  | some slot ↦
      let order = order_at b slot in
      let pending =
        record_event (transition b slot cancel_pending now_ns) cancel now_ns ref.logical_order_id
          order.symbol_id 0 (remaining order) (pos 0) (pos 0) (pos 0) in
      if is_unknown order.state then (false, b) else (true, finish pending slot cancelled now_ns)
]

-- The order after a replace is accepted.
unfoldable pub replaced : PaperBroker → Order → ℤ → ℤ → Order
unfolding queue_at_placement
replaced b order new_price_ticks new_volume = record order {
  limit_price_ticks = new_price_ticks;
  requested_volume = new_volume;
  queue_ahead =
      if is_limit order.type
      then queue_at_placement b order.side (market_of b order.symbol_id)
      else order.queue_ahead;
}

unfoldable pub replace_order : PaperBroker → BrokerOrderRef → ℤ → ℤ → ℕ → Bool × PaperBroker
unfolding replaced record_event
replace_order b ref new_price_ticks new_volume now_ns = elim (live_slot b.orders ref) [
  | none ↦ (false, b)
  | some slot ↦
      let order = order_at b slot in
      let spec = spec_of b order.symbol_id in
      if is_unknown order.state
      then (false, b)
      else if leb_ℤ new_volume order.filled_volume || not (volume_valid spec new_volume)
      then (false, b)
      else if is_limit order.type
          && (leb_ℤ new_price_ticks (pos 0) || not (price_aligned spec new_price_ticks))
      then (false, b)
      else (
        true,
        record_event (write_order b slot (replaced b order new_price_ticks new_volume)) replace
            now_ns ref.logical_order_id order.symbol_id 0 order.limit_price_ticks new_price_ticks
            order.requested_volume new_volume,
      )
]

-- ===== src/Exec/Broker/Fills.antt =====
-- include/exec/paper_broker.hpp: fills, the work on the orders, and the handling of a quote.
use market_microstructure_en.Base.{
  ℕ, zero, suc, Bool, ◌&&◌, ◌||◌, not, ◌==◌, ltb, leb, if◌then◌else◌, map, length, set, Option,
  none, some,
}
use market_microstructure_en.Base.Int.{ℤ, pos, ◌+ℤ◌, ◌-ℤ◌, ◌*ℤ◌, ◌==ℤ◌, quot, ltb_ℤ, leb_ℤ}
use market_microstructure_en.Base.Words.{add64}
use market_microstructure_en.Exec.Types.{
  buy, sell, acknowledged, partially_filled, filled, rejected, expired, is_terminal, invalid_price,
  impossible_fill, probabilistic_reject, Order, remaining,
}
use market_microstructure_en.Exec.Journal.{acknowledgement, rejection, fill}
use market_microstructure_en.Exec.Philox.{queue_share, next_range}
use market_microstructure_en.Exec.Models.{sample_ticks, rejects, charge_minor}
use market_microstructure_en.Exec.Broker.State.{
  PaperBroker, MarketState, spread_ticks, order_at, write_order, spec_of, market_of, reason_code,
  record_event, halt, transition, recompute_account, refresh_account, finish, max_symbols,
}
use market_microstructure_en.Exec.Broker.Positions.{
  is_limit, is_market, is_sent, is_fillable, is_partially_filled, apply_to_position,
}

-- The order after a fill: volume, weighted average price and commission.
unfoldable pub filled_order : Order → ℤ → ℤ → ℤ → Order
filled_order order price volume commission =
    let weighted = order.avg_fill_price_ticks *ℤ order.filled_volume +ℤ price *ℤ volume in
    let total = order.filled_volume +ℤ volume in
    record order {
      filled_volume = total;
      avg_fill_price_ticks = quot (weighted +ℤ quot total (pos 2)) total;
      commission_minor = order.commission_minor +ℤ commission;
    }

abbrev pub charge_commission : PaperBroker → ℤ → PaperBroker
charge_commission b commission = record b {
  account = record b.account {
    commission_paid_minor = b.account.commission_paid_minor +ℤ commission;
    balance_minor = b.account.balance_minor -ℤ commission;
  };
}

-- `apply_fill` up to the journal's record of the fill, and the end of the order or its transition.
unfoldable pub book_fill : PaperBroker → ℕ → ℤ → ℤ → ℕ → PaperBroker
unfolding filled_order apply_to_position record_event
book_fill b slot price volume now_ns =
    let order = order_at b slot in
    let commission = charge_minor (spec_of b order.symbol_id) volume in
    let b1 = write_order b slot (filled_order order price volume commission) in
    let b2 = apply_to_position (charge_commission b1 commission) slot price volume now_ns in
    let b3 = record b2 { fill_count = add64 b2.fill_count 1 } in
    let order' = order_at b3 slot in
    record_event b3 fill now_ns order'.ref.logical_order_id order'.symbol_id b3.last_ticket price
      volume commission (if leb_ℤ (remaining order') (pos 0) then pos 1 else pos 0)

unfoldable pub conclude_fill : PaperBroker → ℕ → ℕ → PaperBroker
unfolding finish transition
conclude_fill b slot now_ns =
    let order = order_at b slot in
    if leb_ℤ (remaining order) (pos 0)
    then finish b slot filled now_ns
    else if not (is_partially_filled order.state)
    then transition b slot partially_filled now_ns
    else b

unfoldable pub apply_fill : PaperBroker → ℕ → ℤ → ℤ → ℕ → PaperBroker
unfolding book_fill conclude_fill refresh_account
apply_fill b slot price volume now_ns =
    refresh_account (conclude_fill (book_fill b slot price volume now_ns) slot now_ns) now_ns

-- The price and the volume on offer for a market order.
unfoldable pub market_terms : PaperBroker → Order → MarketState → ℤ × ℤ
market_terms b order m =
    let slip = sample_ticks b.config.run_seed order.corr_id b.config.mode (spread_ticks m) in
    let price = elim order.side as (λ _. ℤ) [
      | buy ↦ m.ask_ticks +ℤ slip
      | sell ↦ m.bid_ticks -ℤ slip
    ] in
    let shown = elim order.side as (λ _. ℤ) [ buy ↦ m.ask_size | sell ↦ m.bid_size ] in
    (price, if leb_ℤ shown (pos 0) then remaining order else shown)

-- Those for a limit order, if the market trades through its price and nothing is queued ahead.
unfoldable pub limit_terms : Order → MarketState → Option (ℤ × ℤ)
limit_terms order m =
    let through = elim order.side as (λ _. Bool) [
      | buy ↦ ltb_ℤ m.ask_ticks order.limit_price_ticks
      | sell ↦ ltb_ℤ order.limit_price_ticks m.bid_ticks
    ] in
    let aggressor = elim order.side as (λ _. ℤ) [ buy ↦ m.ask_size | sell ↦ m.bid_size ] in
    if not through || ltb_ℤ (pos 0) order.queue_ahead
    then none
    else some
        (order.limit_price_ticks, if ltb_ℤ (pos 0) aggressor then aggressor else remaining order)

unfoldable pub terms : PaperBroker → Order → MarketState → Option (ℤ × ℤ)
unfolding market_terms limit_terms
terms b order m =
    if is_market order.type then some (market_terms b order m) else limit_terms order m

-- The guards on a fill's price: better than the touch, or at the middle of a spread.
unfoldable pub better_than_touch : Order → MarketState → ℤ → Bool
better_than_touch order m price = elim order.side [
  | buy ↦ ltb_ℤ price m.ask_ticks
  | sell ↦ ltb_ℤ m.bid_ticks price
]

unfoldable pub at_mid : Order → MarketState → ℤ → Bool
at_mid order m price =
    leb_ℤ (pos 2) (spread_ticks m)
    && price *ℤ pos 2 ==ℤ m.bid_ticks +ℤ m.ask_ticks
    && is_market order.type

unfoldable pub fill_at : PaperBroker → ℕ → MarketState → ℤ → ℤ → ℕ → PaperBroker
unfolding halt better_than_touch at_mid
fill_at b slot m price available now_ns =
    let order = order_at b slot in
    let volume = if ltb_ℤ available (remaining order) then available else remaining order in
    if leb_ℤ price (pos 0)
    then halt b invalid_price
    else if leb_ℤ volume (pos 0)
    then b
    else if ltb_ℤ (remaining order) volume
    then halt b impossible_fill
    else if is_market order.type && better_than_touch order m price
    then halt b impossible_fill
    else if at_mid order m price
    then halt b impossible_fill
    else apply_fill b slot price volume now_ns

unfoldable pub attempt_fill : PaperBroker → ℕ → ℕ → PaperBroker
unfolding terms
attempt_fill b slot now_ns =
    let order = order_at b slot in
    let m = market_of b order.symbol_id in
    if not m.valid || leb_ℤ (remaining order) (pos 0)
    then b
    else if not (is_fillable order.state)
    then b
    else elim (terms b order m) [
      | none ↦ b
      | some (price, available) ↦ fill_at b slot m price available now_ns
    ]

-- The random rejection of an order that was sent, and its acknowledgement.
unfoldable pub reject_order : PaperBroker → ℕ → ℕ → PaperBroker
unfolding finish record_event
reject_order b slot now_ns =
    let order = order_at b slot in
    finish
      (record_event b rejection now_ns order.ref.logical_order_id order.symbol_id 0
        (pos (reason_code probabilistic_reject)) (pos 0) (pos 0) (pos 0))
      slot rejected now_ns

unfoldable pub acknowledge_order : PaperBroker → ℕ → ℕ → PaperBroker
unfolding transition record_event
acknowledge_order b slot now_ns =
    let order = order_at b slot in
    record_event (transition b slot acknowledged now_ns) acknowledgement now_ns
      order.ref.logical_order_id order.symbol_id 0 (pos order.ts_effective_ns) (pos 0) (pos 0)
      (pos 0)

unfoldable pub process_order : PaperBroker → ℕ → ℕ → PaperBroker
unfolding finish reject_order acknowledge_order attempt_fill
process_order b slot now_ns =
    let order = order_at b slot in
    let spread = spread_ticks (market_of b order.symbol_id) in
    if is_terminal order.state
    then b
    else if not (order.expire_ns == 0) && leb order.expire_ns now_ns
    then finish b slot expired now_ns
    else if ltb now_ns order.ts_effective_ns
    then b
    else if not (is_sent order.state)
    then attempt_fill b slot now_ns
    else if rejects b.config.run_seed order.corr_id b.config.mode spread
    then reject_order b slot now_ns
    else attempt_fill (acknowledge_order b slot now_ns) slot now_ns

-- The loop of `process`, from a slot on, over the slots left.
unfoldable pub process_from : PaperBroker → ℕ → ℕ → ℕ → PaperBroker
unfolding process_order
process_from b slot zero now_ns = b
process_from b slot (suc left) now_ns =
    process_from (process_order b slot now_ns) (suc slot) left now_ns

unfoldable pub process : PaperBroker → ℕ → PaperBroker
unfolding process_from
process b now_ns = if b.is_halted then b else process_from b 0 (length b.orders) now_ns

-- One round of the loop of `credit_queue`.
unfoldable pub credit_order : ℕ → ℕ → MarketState → ℤ → ℤ → ℤ → ℤ → Order → Order
credit_order run_seed symbol_id previous bid ask bid_size ask_size order =
    let same_level = elim order.side as (λ _. Bool) [
      | buy ↦ bid ==ℤ previous.bid_ticks && order.limit_price_ticks ==ℤ bid
      | sell ↦ ask ==ℤ previous.ask_ticks && order.limit_price_ticks ==ℤ ask
    ] in
    let before = elim order.side as (λ _. ℤ) [
      | buy ↦ previous.bid_size
      | sell ↦ previous.ask_size
    ] in
    let after = elim order.side as (λ _. ℤ) [ buy ↦ bid_size | sell ↦ ask_size ] in
    let share = next_range run_seed order.corr_id queue_share 1 100 in
    let credited = quot ((before -ℤ after) *ℤ pos share) (pos 100) in
    let ahead = order.queue_ahead -ℤ credited in
    if not (order.symbol_id == symbol_id) || not (is_limit order.type)
    then order
    else if is_terminal order.state || leb_ℤ order.queue_ahead (pos 0)
    then order
    else if not same_level || leb_ℤ before after
    then order
    else record order { queue_ahead = if ltb_ℤ ahead (pos 0) then pos 0 else ahead }

unfoldable pub credit_queue : PaperBroker → ℕ → MarketState → ℤ → ℤ → ℤ → ℤ → PaperBroker
unfolding credit_order
credit_queue b symbol_id previous bid ask bid_size ask_size =
    if not previous.valid then b else record b {
      orders =
          map (credit_order b.config.run_seed symbol_id previous bid ask bid_size ask_size)
            b.orders;
    }

-- The market of a symbol after a quote.
abbrev pub quoted : PaperBroker → ℕ → ℤ → ℤ → ℤ → ℤ → ℕ → PaperBroker
quoted b symbol_id bid ask bid_size ask_size ts_ns = record b {
  markets = set b.markets symbol_id (record {
    bid_ticks = bid;
    ask_ticks = ask;
    bid_size = bid_size;
    ask_size = ask_size;
    quote_ns = ts_ns;
    valid = ltb_ℤ (pos 0) bid && ltb_ℤ (pos 0) ask && ltb_ℤ bid ask;
  });
}

unfoldable pub on_quote : PaperBroker → ℕ → ℤ → ℤ → ℤ → ℤ → ℕ → PaperBroker
unfolding credit_queue process recompute_account
on_quote b symbol_id bid ask bid_size ask_size ts_ns =
    let credited = credit_queue b symbol_id (market_of b symbol_id) bid ask bid_size ask_size in
    if leb max_symbols symbol_id
    then b
    else recompute_account
        (process (quoted credited symbol_id bid ask bid_size ask_size ts_ns) ts_ns) ts_ns

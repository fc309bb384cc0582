-- ===== src/Oms/Recovery/Streamed.antt =====
-- include/oms/recovery_streaming.hpp: what the loop over a stream does with each kind of record.
use market_microstructure_en.Base.{
  ◌+◌, Bool, true, false, ◌&&◌, ◌||◌, not, ◌==◌, if◌then◌else◌, Option, none, some,
}
use market_microstructure_en.Base.Int.{pos, pos_part, ltb_ℤ, leb_ℤ, ◌==ℤ◌, ◌+ℤ◌, ◌-ℤ◌}
use market_microstructure_en.Exec.Types.{
  Order, default_order, sent, pending_send, acknowledged, cancel_pending, open_position, closed,
}
use market_microstructure_en.Exec.Account.{Position, is_closed}
use market_microstructure_en.Exec.Journal.{JournalRecord}
use market_microstructure_en.Exec.Broker.State.{state_code, side_code}
use market_microstructure_en.Oms.Oms.{
  find, find_slot, order_at, write, restore, transition, recover_fill,
}
use market_microstructure_en.Oms.Pms.{
  Pms, blank_position, held_slot, held_at, write_held, restore_position,
}
use market_microstructure_en.Portfolio.{upsert}
use market_microstructure_en.Oms.Recovery.{
  Progress, ref_of, side_of, type_of, state_of, with_orders, valid_order_state,
}

unfoldable pub stream_command : Progress → JournalRecord → Option Progress
stream_command p r =
    let v : Order = record default_order {
      ref = ref_of r;
      symbol_id = r.symbol_id;
      side = side_of r.a;
      requested_volume = r.b;
      limit_price_ticks = r.c;
      type = type_of r.d;
      state = sent;
    } in
    let k = p.state.counters in
    if (r.run_id == 0)
      || (r.logical_order_id == 0)
      || not (r.position_ticket == 0)
      || ltb_ℤ r.a (pos 0)
      || ltb_ℤ (pos 1) r.a
      || leb_ℤ r.b (pos 0)
      || ltb_ℤ r.c (pos 0)
      || ltb_ℤ r.d (pos 0)
      || ltb_ℤ (pos 1) r.d
    then none
    else let (restored, orders) = restore p.state.orders v in
      if not restored
      then none
      else some (with_orders p orders (record k { commands = k.commands + 1 }))

-- The handlers of records that need an order take the one that the loop looked up.
unfoldable pub stream_order_state : Progress → Option Order → JournalRecord → Option Progress
stream_order_state p none r =
    if not (valid_order_state r.a)
      || not (valid_order_state r.b)
      || not (r.position_ticket == 0)
      || ltb_ℤ r.c (pos 0)
      || ltb_ℤ r.d (pos 0)
    then none
    else if (r.a ==ℤ pos (state_code pending_send)) && (r.b ==ℤ pos (state_code sent))
    then some p
    else none
stream_order_state p (some o) r =
    if not (valid_order_state r.a)
      || not (valid_order_state r.b)
      || not (r.position_ticket == 0)
      || ltb_ℤ r.c (pos 0)
      || ltb_ℤ r.d (pos 0)
    then none
    else if not (pos (state_code o.state) ==ℤ r.a)
        || not (o.filled_volume ==ℤ r.c)
        || not (o.requested_volume ==ℤ r.d)
    then none
    else let (moved, orders) = transition p.state.orders (ref_of r) (state_of (pos_part r.b)) in
      if not moved then none else some (with_orders p orders p.state.counters)

unfoldable pub stream_acknowledgement : Progress → Option Order → JournalRecord → Option Progress
stream_acknowledgement p none r = none
stream_acknowledgement p (some o) r =
    let k = p.state.counters in
    if not (state_code o.state == state_code acknowledged)
      || ltb_ℤ r.a (pos 0)
      || not (r.position_ticket == 0)
    then none
    else some (with_orders p p.state.orders (record k { acks = k.acks + 1 }))

-- No order was found, or one in a state other than `sent`.
abbrev pub not_sent : Option Order → Bool
not_sent none = true
not_sent (some o) = not (state_code o.state == state_code sent)

unfoldable pub stream_rejection : Progress → Option Order → JournalRecord → Option Progress
stream_rejection p found r =
    let k = p.state.counters in
    if leb_ℤ r.a (pos 0)
    then none
    else if not (r.logical_order_id == 0) && not_sent found
    then none
    else some (with_orders p p.state.orders (record k { rejections = k.rejections + 1 }))

unfoldable pub stream_fill : Progress → Option Order → JournalRecord → Option Progress
stream_fill p none r = none
stream_fill p (some o) r =
    let k = p.state.counters in
    if (r.position_ticket == 0)
      || leb_ℤ r.a (pos 0)
      || leb_ℤ r.b (pos 0)
      || ltb_ℤ r.c (pos 0)
      || (not (r.d ==ℤ pos 0) && not (r.d ==ℤ pos 1))
    then none
    else let (filled_in, orders) = recover_fill p.state.orders (ref_of r) r.b in
      if not filled_in then none else some (with_orders p orders (record k { fills = k.fills + 1 }))

unfoldable pub stream_cancel : Progress → Option Order → JournalRecord → Option Progress
stream_cancel p none r = none
stream_cancel p (some o) r =
    let k = p.state.counters in
    if not (state_code o.state == state_code cancel_pending)
      || ltb_ℤ r.a (pos 0)
      || not (r.position_ticket == 0)
    then none
    else some (with_orders p p.state.orders (record k { cancels = k.cancels + 1 }))

-- `o` points at a slot of the store, which the handler writes.
unfoldable pub stream_replace : Progress → JournalRecord → Option Progress
stream_replace p r = elim (find_slot p.state.orders (ref_of r)) [
  | none ↦ none
  | some slot ↦
      let o = order_at p.state.orders slot in
      let k = p.state.counters in
      if not (state_code o.state == state_code acknowledged)
        || leb_ℤ r.a (pos 0)
        || leb_ℤ r.b (pos 0)
        || leb_ℤ r.c (pos 0)
        || leb_ℤ r.d (pos 0)
        || ltb_ℤ r.d o.filled_volume
        || not (r.a ==ℤ o.limit_price_ticks)
        || not (r.c ==ℤ o.requested_volume)
      then none
      else some (
          with_orders p
            (write p.state.orders slot
              (record o { limit_price_ticks = r.b; requested_volume = r.d }))
            (record k { replaces = k.replaces + 1 }))
]

unfoldable pub streamed_position : JournalRecord → Position
streamed_position r = record blank_position {
  position_ticket = r.position_ticket;
  symbol_id = r.symbol_id;
  side = side_of r.a;
  state = if not (r.b ==ℤ pos 0) then open_position else closed;
  volume = r.b;
  avg_price_ticks = r.c;
  realized_pnl_minor = r.d;
}

-- `next.portfolio.upsert(...)`, after the positions were changed.
unfoldable pub stream_upsert : Progress → Pms → JournalRecord → Option Progress
stream_upsert p positions r =
    let (kept, portfolio) = upsert p.state.portfolio (record {
      ticket = r.position_ticket;
      symbol = r.symbol_id;
      side = side_of r.a;
      volume = r.b;
      realized = r.d;
      unrealized = pos 0;
    }) in
    if not kept
    then none
    else some (record p { state = record p.state { positions = positions; portfolio = portfolio } })

unfoldable pub stream_position : Progress → JournalRecord → Option Progress
unfolding streamed_position stream_upsert
stream_position p r =
    let s = p.state.positions in
    if not (r.logical_order_id == 0)
      || (r.position_ticket == 0)
      || ltb_ℤ r.a (pos 0)
      || ltb_ℤ (pos 1) r.a
      || ltb_ℤ r.b (pos 0)
      || ltb_ℤ r.c (pos 0)
    then none
    else elim (held_slot s r.position_ticket) [
      | some i ↦
          let old = held_at s i in
          if not (old.symbol_id == r.symbol_id)
            || not (pos (side_code old.side) ==ℤ r.a)
            || is_closed old.state
          then none
          else stream_upsert p (write_held s i (streamed_position r)) r
      | none ↦
          if r.b ==ℤ pos 0
          then none
          else let (restored, s') = restore_position s (streamed_position r) in
            if not restored then none else stream_upsert p s' r
    ]

unfoldable pub stream_account : Progress → JournalRecord → Option Progress
stream_account p r =
    if not (r.logical_order_id == 0)
      || not (r.position_ticket == 0)
      || ltb_ℤ r.c (pos 0)
      || ltb_ℤ r.d (pos 0)
      || not (r.b -ℤ r.c ==ℤ r.d)
    then none
    else some (record p {
      state = record p.state {
        account = record p.state.account {
          balance_minor = r.a;
          equity_minor = r.b;
          margin_used_minor = r.c;
          free_margin_minor = r.d;
        };
      };
      have_account = true;
      have_pnl = false;
    })

unfoldable pub stream_pnl : Progress → JournalRecord → Option Progress
stream_pnl p r =
    let account = p.state.account in
    if not (r.logical_order_id == 0)
      || not (r.position_ticket == 0)
      || not (r.d ==ℤ pos 0)
      || not p.have_account
      || p.have_pnl
      || not (account.equity_minor ==ℤ account.balance_minor +ℤ r.b)
    then none
    else some (record p {
      state = record p.state {
        account = record account {
          realized_pnl_minor = r.a;
          unrealized_pnl_minor = r.b;
          commission_paid_minor = r.c;
        };
      };
      have_pnl = true;
    })

-- The body of the loop for a record that passed the checks on its header.
unfoldable pub stream_record : Progress → JournalRecord → Option Progress
unfolding stream_command stream_order_state stream_acknowledgement stream_rejection stream_fill
    stream_cancel stream_replace stream_position stream_account stream_pnl
stream_record p r =
    let o = find p.state.orders (ref_of r) in
    if r.type == 1
    then stream_command p r
    else if r.type == 7
    then stream_order_state p o r
    else if r.type == 2
    then stream_acknowledgement p o r
    else if r.type == 3
    then stream_rejection p o r
    else if r.type == 4
    then stream_fill p o r
    else if r.type == 5
    then stream_cancel p o r
    else if r.type == 6
    then stream_replace p r
    else if r.type == 8
    then stream_position p r
    else if r.type == 10
    then stream_account p r
    else if r.type == 9
    then stream_pnl p r
    else some p

-- ===== src/Oms/Recovery.antt =====
-- include/oms/recovery.hpp: the state that is rebuilt from a journal. A record that does not fit what was
-- read before it ends the recovery, which then changes nothing.
use market_microstructure_en.Base.{
  ℕ, zero, suc, ◌+◌, Bool, true, false, ◌&&◌, ◌||◌, not, ◌==◌, ltb, leb, if◌then◌else◌, List, [],
  ◌∷◌, ◌++◌, length, Option, none, some, is_some,
}
use market_microstructure_en.Base.Int.{ℤ, pos, pos_part, ltb_ℤ, leb_ℤ, ◌==ℤ◌, ◌+ℤ◌, ◌-ℤ◌}
use market_microstructure_en.Exec.Types.{
  BrokerOrderRef, Side, buy, sell, OrderType, market, limit, OrderState, new_order, risk_rejected,
  pending_send, sent, acknowledged, rejected, unknown, partially_filled, filled, cancel_pending,
  cancelled, expired, is_terminal, is_unknown, Order, default_order, open_position, closed,
}
use market_microstructure_en.Exec.Account.{Position, is_closed}
use market_microstructure_en.Exec.Journal.{Journal, JournalRecord, max_journal_records}
use market_microstructure_en.Exec.Broker.State.{AccountState, state_code, side_code, max_symbols}
use market_microstructure_en.Oms.Oms.{
  Oms, make, find, find_slot, order_at, write, restore, transition, recover_fill,
  mark_unknown_on_restart,
}
use market_microstructure_en.Oms.Pms.{
  Pms, empty_pms, blank_position, held_slot, held_at, write_held, restore_position,
}
use market_microstructure_en.Portfolio.{MarginMode, Portfolio, empty_portfolio, upsert}
use market_microstructure_en.Risk.Limits.{HaltReason, no_halt, manual_kill}
pub mod Recover
pub mod Repeated
pub mod Streamed
pub mod Streaming
pub mod Ported
pub mod Concluded
pub mod Window
pub mod Agree
mod Tests

pub record RiskCounters : Type 0 where
  pub commands : ℕ
  pub acks : ℕ
  pub rejections : ℕ
  pub fills : ℕ
  pub cancels : ℕ
  pub replaces : ℕ

abbrev pub no_counters : RiskCounters
no_counters = record {
  commands = 0;
  acks = 0;
  rejections = 0;
  fills = 0;
  cancels = 0;
  replaces = 0;
}

abbrev pub no_account : AccountState
no_account = record {
  balance_minor = pos 0;
  equity_minor = pos 0;
  margin_used_minor = pos 0;
  free_margin_minor = pos 0;
  realized_pnl_minor = pos 0;
  unrealized_pnl_minor = pos 0;
  commission_paid_minor = pos 0;
  open_positions = 0;
  open_orders = 0;
  stopped_out = false;
}

pub record RecoveryState : Type 0 where
  pub orders : Oms
  pub positions : Pms
  pub portfolio : Portfolio
  pub account : AccountState
  pub counters : RiskCounters
  pub halt : HaltReason
  pub kill : Bool

unfoldable pub fresh_state : MarginMode → RecoveryState
fresh_state mode = record {
  orders = make max_journal_records;
  positions = empty_pms;
  portfolio = empty_portfolio mode;
  account = no_account;
  counters = no_counters;
  halt = no_halt;
  kill = false;
}

-- `detail::same_payload`: all members but the sequence number.
unfoldable pub same_payload : JournalRecord → JournalRecord → Bool
same_payload x y =
    (x.ts_ns == y.ts_ns)
    && (x.type == y.type)
    && (x.reserved == y.reserved)
    && (x.symbol_id == y.symbol_id)
    && (x.run_id == y.run_id)
    && (x.logical_order_id == y.logical_order_id)
    && (x.position_ticket == y.position_ticket)
    && (x.a ==ℤ y.a)
    && (x.b ==ℤ y.b)
    && (x.c ==ℤ y.c)
    && (x.d ==ℤ y.d)

abbrev pub valid_order_state : ℤ → Bool
valid_order_state x = leb_ℤ (pos 0) x && leb_ℤ x (pos 11)

-- The casts of numbers to enumerators, on the numbers that pass the checks.
abbrev pub side_of : ℤ → Side
side_of a = if a ==ℤ pos 0 then buy else sell

abbrev pub type_of : ℤ → OrderType
type_of d = if d ==ℤ pos 0 then market else limit

abbrev pub state_of : ℕ → OrderState
state_of n =
    if n == 0
    then new_order
    else if n == 1
    then risk_rejected
    else if n == 2
    then pending_send
    else if n == 3
    then sent
    else if n == 4
    then acknowledged
    else if n == 5
    then rejected
    else if n == 6
    then unknown
    else if n == 7
    then partially_filled
    else if n == 8
    then filled
    else if n == 9
    then cancel_pending
    else if n == 10
    then cancelled
    else expired

-- What the loop of `recover` keeps from record to record.
pub record Progress : Type 0 where
  pub state : RecoveryState
  pub last_ts : ℕ
  pub have_account : Bool
  pub have_pnl : Bool

abbrev pub ref_of : JournalRecord → BrokerOrderRef
ref_of r = record { run_id = r.run_id; logical_order_id = r.logical_order_id }

abbrev pub with_orders : Progress → Oms → RiskCounters → Progress
with_orders p orders counters = record p {
  state = record p.state { orders = orders; counters = counters };
}

-- `if (bad) return false;`
abbrev pub unless : Bool → Option Progress → Option Progress
unless bad rest = if bad then none else rest

unfoldable pub bad_command : JournalRecord → Bool
bad_command r =
    (r.run_id == 0)
    || (r.logical_order_id == 0)
    || not (r.position_ticket == 0)
    || ltb_ℤ r.a (pos 0)
    || ltb_ℤ (pos 1) r.a
    || leb_ℤ r.b (pos 0)
    || ltb_ℤ r.c (pos 0)
    || ltb_ℤ r.d (pos 0)
    || ltb_ℤ (pos 1) r.d

unfoldable pub read_command : Progress → JournalRecord → Option Progress
unfolding bad_command
read_command p r =
    let order : Order = record default_order {
      ref = ref_of r;
      symbol_id = r.symbol_id;
      side = side_of r.a;
      requested_volume = r.b;
      limit_price_ticks = r.c;
      type = type_of r.d;
      state = sent;
    } in
    let (restored, orders) = restore p.state.orders order in
    let k = p.state.counters in
    unless (bad_command r || not restored)
      (some (with_orders p orders (record k { commands = k.commands + 1 })))

-- Whether an order is in a state; never for one that was not found.
abbrev pub is_in : Option Order → OrderState → Bool
is_in none state = false
is_in (some o) state = state_code o.state == state_code state

abbrev pub matches_order : Option Order → JournalRecord → Bool
matches_order none r = false
matches_order (some o) r =
    (pos (state_code o.state) ==ℤ r.a) && (o.filled_volume ==ℤ r.c) && (o.requested_volume ==ℤ r.d)

unfoldable pub read_order_state : Progress → JournalRecord → Option Progress
read_order_state p r =
    let found = find p.state.orders (ref_of r) in
    let (moved, orders) = transition p.state.orders (ref_of r) (state_of (pos_part r.b)) in
    unless
      (not (valid_order_state r.a)
        || not (valid_order_state r.b)
        || not (r.position_ticket == 0)
        || ltb_ℤ r.c (pos 0)
        || ltb_ℤ r.d (pos 0))
      (if not (is_some found) && (r.a ==ℤ pos 2 && r.b ==ℤ pos 3)
        then some p
        else unless (not (matches_order found r) || not moved)
            (some (with_orders p orders p.state.counters)))

unfoldable pub read_acknowledgement : Progress → JournalRecord → Option Progress
read_acknowledgement p r =
    let k = p.state.counters in
    unless
      (not (is_in (find p.state.orders (ref_of r)) acknowledged)
        || ltb_ℤ r.a (pos 0)
        || not (r.position_ticket == 0))
      (some (with_orders p p.state.orders (record k { acks = k.acks + 1 })))

unfoldable pub read_rejection : Progress → JournalRecord → Option Progress
read_rejection p r =
    let k = p.state.counters in
    unless
      (leb_ℤ r.a (pos 0)
        || (not (r.logical_order_id == 0) && not (is_in (find p.state.orders (ref_of r)) sent)))
      (some (with_orders p p.state.orders (record k { rejections = k.rejections + 1 })))

unfoldable pub read_fill : Progress → JournalRecord → Option Progress
read_fill p r =
    let k = p.state.counters in
    let (filled_in, orders) = recover_fill p.state.orders (ref_of r) r.b in
    unless
      (not (is_some (find p.state.orders (ref_of r)))
        || (r.position_ticket == 0)
        || leb_ℤ r.a (pos 0)
        || leb_ℤ r.b (pos 0)
        || ltb_ℤ r.c (pos 0)
        || not (r.d ==ℤ pos 0 || r.d ==ℤ pos 1)
        || not filled_in)
      (some (with_orders p orders (record k { fills = k.fills + 1 })))

unfoldable pub read_cancel : Progress → JournalRecord → Option Progress
read_cancel p r =
    let k = p.state.counters in
    unless
      (not (is_in (find p.state.orders (ref_of r)) cancel_pending)
        || ltb_ℤ r.a (pos 0)
        || not (r.position_ticket == 0))
      (some (with_orders p p.state.orders (record k { cancels = k.cancels + 1 })))

unfoldable pub bad_replace : Order → JournalRecord → Bool
bad_replace o r =
    leb_ℤ r.a (pos 0)
    || leb_ℤ r.b (pos 0)
    || leb_ℤ r.c (pos 0)
    || leb_ℤ r.d (pos 0)
    || ltb_ℤ r.d o.filled_volume
    || not (r.a ==ℤ o.limit_price_ticks)
    || not (r.c ==ℤ o.requested_volume)

unfoldable pub read_replace : Progress → JournalRecord → Option Progress
unfolding bad_replace
read_replace p r = elim (find_slot p.state.orders (ref_of r)) [
  | none ↦ none
  | some slot ↦
      let o = order_at p.state.orders slot in
      let k = p.state.counters in
      unless (not (is_in (some o) acknowledged) || bad_replace o r) (
        some (
          with_orders p
            (write p.state.orders slot
              (record o { limit_price_ticks = r.b; requested_volume = r.d }))
            (record k { replaces = k.replaces + 1 })))
]

-- ===== src/Oms/Recovery/Recover.antt =====
-- include/oms/recovery.hpp: the records of positions and of the account, and the loop over the journal.
use market_microstructure_en.Base.{
  ℕ, zero, suc, ◌+◌, Bool, true, false, ◌&&◌, ◌||◌, not, ◌==◌, ltb, leb, if◌then◌else◌, List, [],
  ◌∷◌, ◌++◌, length, Option, none, some,
}
use market_microstructure_en.Base.Int.{pos, ltb_ℤ, ◌==ℤ◌, ◌+ℤ◌, ◌-ℤ◌}
use market_microstructure_en.Exec.Types.{is_terminal, is_unknown, open_position, closed}
use market_microstructure_en.Exec.Account.{Position, is_closed}
use market_microstructure_en.Exec.Journal.{Journal, JournalRecord}
use market_microstructure_en.Exec.Broker.State.{side_code, max_symbols}
use market_microstructure_en.Oms.Oms.{Oms, order_at, mark_unknown_on_restart}
use market_microstructure_en.Oms.Pms.{
  Pms, blank_position, held_slot, held_at, write_held, restore_position,
}
use market_microstructure_en.Portfolio.{MarginMode, upsert}
use market_microstructure_en.Risk.Limits.{HaltReason, no_halt, manual_kill}
use market_microstructure_en.Oms.Recovery.{
  RecoveryState, fresh_state, same_payload, Progress, unless, side_of, read_command,
  read_order_state, read_acknowledgement, read_rejection, read_fill, read_cancel, read_replace,
}

unfoldable pub recovered_position : JournalRecord → Position
recovered_position r = record blank_position {
  position_ticket = r.position_ticket;
  symbol_id = r.symbol_id;
  side = side_of r.a;
  state = if r.b ==ℤ pos 0 then closed else open_position;
  volume = r.b;
  avg_price_ticks = r.c;
  realized_pnl_minor = r.d;
}

unfoldable pub bad_position : JournalRecord → Bool
bad_position r =
    not (r.logical_order_id == 0)
    || (r.position_ticket == 0)
    || ltb_ℤ r.a (pos 0)
    || ltb_ℤ (pos 1) r.a
    || ltb_ℤ r.b (pos 0)
    || ltb_ℤ r.c (pos 0)

-- A record cannot belong to the position that its ticket names.
unfoldable pub conflicts : Position → JournalRecord → Bool
conflicts old r =
    not (old.symbol_id == r.symbol_id)
    || not (pos (side_code old.side) ==ℤ r.a)
    || is_closed old.state

-- The position store with the record's position, if it can be put there.
unfoldable pub put_position : Pms → JournalRecord → Bool × Pms
unfolding conflicts recovered_position
put_position s r = elim (held_slot s r.position_ticket) [
  | some i ↦
      if conflicts (held_at s i) r
      then (false, s)
      else (true, write_held s i (recovered_position r))
  | none ↦ if r.b ==ℤ pos 0 then (false, s) else restore_position s (recovered_position r)
]

unfoldable pub read_position : Progress → JournalRecord → Option Progress
unfolding bad_position put_position
read_position p r =
    let (placed, positions) = put_position p.state.positions r in
    let (kept, portfolio) = upsert p.state.portfolio (record {
      ticket = r.position_ticket;
      symbol = r.symbol_id;
      side = side_of r.a;
      volume = r.b;
      realized = r.d;
      unrealized = pos 0;
    }) in
    unless (bad_position r || not placed || not kept)
      (some (record p { state = record p.state { positions = positions; portfolio = portfolio } }))

unfoldable pub read_account : Progress → JournalRecord → Option Progress
read_account p r =
    unless
      (not (r.logical_order_id == 0)
        || not (r.position_ticket == 0)
        || ltb_ℤ r.c (pos 0)
        || ltb_ℤ r.d (pos 0)
        || not (r.b -ℤ r.c ==ℤ r.d))
      (some (record p {
        state = record p.state {
          account = record p.state.account {
            balance_minor = r.a;
            equity_minor = r.b;
            margin_used_minor = r.c;
            free_margin_minor = r.d;
          };
        };
        have_account = true;
        have_pnl = false;
      }))

unfoldable pub read_pnl : Progress → JournalRecord → Option Progress
read_pnl p r =
    let account = p.state.account in
    unless
      (not (r.logical_order_id == 0)
        || not (r.position_ticket == 0)
        || not (r.d ==ℤ pos 0)
        || not p.have_account
        || p.have_pnl
        || not (account.equity_minor ==ℤ account.balance_minor +ℤ r.b))
      (some (record p {
        state = record p.state {
          account = record account {
            realized_pnl_minor = r.a;
            unrealized_pnl_minor = r.b;
            commission_paid_minor = r.c;
          };
        };
        have_pnl = true;
      }))

-- The switch on the record's type.
unfoldable pub read_record : Progress → JournalRecord → Option Progress
unfolding read_position read_account read_pnl
read_record p r =
    if r.type == 1
    then read_command p r
    else if r.type == 7
    then read_order_state p r
    else if r.type == 2
    then read_acknowledgement p r
    else if r.type == 3
    then read_rejection p r
    else if r.type == 4
    then read_fill p r
    else if r.type == 5
    then read_cancel p r
    else if r.type == 6
    then read_replace p r
    else if r.type == 8
    then read_position p r
    else if r.type == 10
    then read_account p r
    else read_pnl p r

unfoldable pub bad_header : ℕ → ℕ → JournalRecord → Bool
bad_header i last_ts r =
    not (r.seq == i)
    || not (r.reserved == 0)
    || ltb r.ts_ns last_ts
    || leb max_symbols r.symbol_id
    || ltb r.type 1
    || ltb 10 r.type

-- The loop over the records before a record.
unfoldable pub repeats : List JournalRecord → JournalRecord → Bool
repeats [] r = false
repeats (x ∷ xs) r = same_payload r x || repeats xs r

-- The loop over the journal, on the records read and those that are left.
unfoldable pub read_records : List JournalRecord → List JournalRecord → Progress → Option Progress
unfolding read_record bad_header repeats
read_records before [] p = some p
read_records before (r ∷ rs) p =
    if bad_header (length before) p.last_ts r || repeats before r
    then none
    else elim (read_record (record p { last_ts = r.ts_ns }) r) [
      | none ↦ none
      | some p' ↦ read_records (before ++ (r ∷ [])) rs p'
    ]

-- The loop that marks the live orders, from a slot on, over the slots left.
unfoldable pub mark_live : Oms → ℕ → ℕ → Option Oms
mark_live orders i zero = some orders
mark_live orders i (suc left) =
    let o = order_at orders i in
    let (marked, orders') = mark_unknown_on_restart orders o.ref in
    let next : Option Oms =
      if is_terminal o.state || is_unknown o.state
      then some orders
      else if marked
      then some orders'
      else none in
    elim next [ none ↦ none | some orders'' ↦ mark_live orders'' (suc i) left ]

unfoldable pub open_held_count : List Position → ℕ
open_held_count [] = 0
open_held_count (p ∷ ps) =
    let rest = open_held_count ps in if is_closed p.state then rest else rest + 1

abbrev pub is_no_halt : HaltReason → Bool
is_no_halt no_halt = true
is_no_halt _ = false

-- `recover` after its loop.
unfoldable pub conclude : Progress → Bool → HaltReason → Option RecoveryState
unfolding mark_live open_held_count
conclude p kill_present persisted_halt =
    let s = p.state in
    let account = record s.account {
      open_orders = length s.orders.orders;
      open_positions = open_held_count s.positions.positions;
    } in
    let halt = if kill_present && is_no_halt persisted_halt then manual_kill else persisted_halt in
    if p.have_account && not p.have_pnl || not p.have_account && p.have_pnl
    then none
    else elim (mark_live s.orders 0 (length s.orders.orders)) [
      | none ↦ none
      | some orders ↦
          some (record s { orders = orders; account = account; halt = halt; kill = kill_present })
    ]

-- The new state, or none where the state of the caller stays as it is.
unfoldable pub recover : Journal → MarginMode → Bool → HaltReason → Option RecoveryState
unfolding read_records conclude
recover j mode kill_present persisted_halt =
    if j.overflowed
    then none
    else elim (read_records [] j.records (record {
      state = fresh_state mode;
      last_ts = 0;
      have_account = false;
      have_pnl = false;
    })) [ none ↦ none | some p ↦ conclude p kill_present persisted_halt ]

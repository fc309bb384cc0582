-- ===== src/Oms/Venue.antt =====
-- include/oms/venue_reconciliation.hpp: what the paper broker shows of its orders, positions and reports, and
-- the comparison of that with the local view. `std::sort` is an insertion sort; each buffer is a list with
-- the room that is left in it.
use market_microstructure_en.Base.{
  ℕ, zero, suc, ◌+◌, ◌-◌, Bool, true, false, ◌&&◌, ◌||◌, not, ◌==◌, ltb, leb, if◌then◌else◌, List,
  [], ◌∷◌, ◌++◌, length, get_or, set, replicate, Option, none, some,
}
use market_microstructure_en.Base.Int.{ℤ, pos, neg, ◌+ℤ◌, ◌==ℤ◌}
use market_microstructure_en.Exec.Types.{
  BrokerOrderRef, ref_eq, OrderState, is_terminal, cancelled, Side, buy, sell, Order, no_ref,
}
use market_microstructure_en.Exec.Account.{Position, is_closed}
use market_microstructure_en.Exec.Journal.{
  JournalRecord, JournalRecordType, type_code, acknowledgement, fill, cancel, order_state, replace,
  command,
}
use market_microstructure_en.Exec.Broker.State.{PaperBroker, state_code}
use market_microstructure_en.Oms.Report.{
  ReportKind, ack, fill_report, cancel_pending_report, cancelled_report, replace_ack, ExecReport,
}
pub mod Compare
pub mod Sorted
pub mod Matched
mod Tests

pub record OrderSnapshot : Type 0 where
  pub ref : BrokerOrderRef
  pub state : OrderState
  pub requested_volume : ℤ
  pub filled_volume : ℤ

pub record PositionSnapshot : Type 0 where
  pub position_ticket : ℕ
  pub symbol_id : ℕ
  pub side : Side
  pub volume : ℤ

abbrev record_ref : JournalRecord → BrokerOrderRef
record_ref r = record { run_id = r.run_id; logical_order_id = r.logical_order_id }

-- The loop of `PaperBroker::find_order`.
unfoldable pub find_order : List Order → BrokerOrderRef → Option Order
find_order [] ref = none
find_order (o ∷ os) ref = let rest = find_order os ref in if ref_eq o.ref ref then some o else rest

unfoldable pub has_snapshot : List OrderSnapshot → BrokerOrderRef → Bool
has_snapshot [] ref = false
has_snapshot (s ∷ ss) ref = ref_eq s.ref ref || has_snapshot ss ref

abbrev pub snapshot_of : Order → BrokerOrderRef → OrderSnapshot
snapshot_of o ref = record {
  ref = ref;
  state = o.state;
  requested_volume = o.requested_volume;
  filled_volume = o.filled_volume;
}

-- One round of the loop of `fetch_open_orders`.
unfoldable pub add_open_order :
    List Order → ℕ → List OrderSnapshot → JournalRecord → List OrderSnapshot
unfolding find_order has_snapshot
add_open_order orders capacity out r =
    if leb capacity (length out) || not (r.type == type_code command)
    then out
    else if has_snapshot out (record_ref r)
    then out
    else elim (find_order orders (record_ref r)) [
      | none ↦ out
      | some o ↦ if is_terminal o.state then out else out ++ (snapshot_of o (record_ref r) ∷ [])
    ]

unfoldable pub open_orders_from :
    List Order → ℕ → List OrderSnapshot → List JournalRecord → List OrderSnapshot
unfolding add_open_order
open_orders_from orders capacity out [] = out
open_orders_from orders capacity out (r ∷ rs) =
    open_orders_from orders capacity (add_open_order orders capacity out r) rs

unfoldable pub fetch_open_orders : PaperBroker → ℕ → List OrderSnapshot
unfolding open_orders_from
fetch_open_orders b capacity = open_orders_from b.orders capacity [] b.journal.records

unfoldable pub positions_from : ℕ → List Position → List PositionSnapshot
positions_from zero ps = []
positions_from (suc room) [] = []
positions_from (suc room) (p ∷ ps) =
    let skip = is_closed p.state in
    let snapshot : PositionSnapshot = record {
      position_ticket = p.position_ticket;
      symbol_id = p.symbol_id;
      side = p.side;
      volume = p.volume;
    } in
    (if skip then [] else snapshot ∷ []) ++ positions_from (if skip then suc room else room) ps

unfoldable pub fetch_positions : PaperBroker → ℕ → List PositionSnapshot
unfolding positions_from
fetch_positions b capacity = positions_from capacity b.book.positions

-- The kind of report that a record becomes, with its volume and price.
unfoldable pub report_of : JournalRecord → Option (ReportKind × ℤ × ℤ)
report_of r =
    if r.type == type_code acknowledgement
    then some (ack, pos 0, pos 0)
    else if r.type == type_code fill
    then some (fill_report, r.b, pos 0)
    else if r.type == type_code cancel
    then some (cancel_pending_report, pos 0, pos 0)
    else if r.type == type_code order_state && (r.b ==ℤ pos (state_code cancelled))
    then some (cancelled_report, pos 0, pos 0)
    else if r.type == type_code replace
    then some (replace_ack, r.d, r.b)
    else none

-- `bump`: the reports of a reference counted so far.
unfoldable pub report_count : List ExecReport → BrokerOrderRef → ℕ
report_count [] ref = 0
report_count (x ∷ xs) ref =
    let rest = report_count xs ref in if ref_eq x.ref ref then suc rest else rest

unfoldable pub add_report : ℕ → List ExecReport → JournalRecord → List ExecReport
unfolding report_of report_count
add_report capacity out r = if leb capacity (length out) then out else elim (report_of r) [
  | none ↦ out
  | some (kind, volume, price) ↦
      out
      ++ (record {
        ref = record_ref r;
        venue_seq = report_count out (record_ref r) + 1;
        kind = kind;
        volume = volume;
        price = price;
      }
          ∷ [])
]

unfoldable pub reports_from : ℕ → List ExecReport → List JournalRecord → List ExecReport
unfolding add_report
reports_from capacity out [] = out
reports_from capacity out (r ∷ rs) = reports_from capacity (add_report capacity out r) rs

unfoldable pub fetch_recent_reports : PaperBroker → ℕ → List ExecReport
unfolding reports_from
fetch_recent_reports b capacity = reports_from capacity [] b.journal.records

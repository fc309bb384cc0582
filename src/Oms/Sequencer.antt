-- ===== src/Oms/Sequencer.antt =====
-- include/oms/report_sequencer.hpp: `ReportSequencer`, reports in the order of their sequence numbers.
pub mod Kept
pub mod Behind
pub mod Drain
pub mod Once
use market_microstructure_en.Base.{
  ℕ, zero, suc, ◌+◌, ◌-◌, Bool, true, false, ◌&&◌, ◌==◌, not, ltb, leb, if◌then◌else◌, Option, none,
  some,
}
use market_microstructure_en.Base.Int.{ℤ, pos, ltb_ℤ}
use market_microstructure_en.Base.Words.{add64}
use market_microstructure_en.Exec.Types.{
  BrokerOrderRef, Order, OrderState, is_terminal, is_unknown, acknowledged, cancel_pending,
  cancelled, rejected,
}
use market_microstructure_en.Oms.Oms.{Oms, find, find_slot, order_at, write, transition, fill}
use market_microstructure_en.Oms.Report.{
  ReportKind, ack, fill_report, cancel_pending_report, cancelled_report, reject, replace_ack,
  ExecReport, ReportOutcome, applied, duplicate, held_for_gap, unknown_order, terminal_late,
  illegal, gap_pool_exhausted, GapPool, make_pool, hold, take_report, discard_all_for,
  TerminalCache, make_cache, remember, contains,
}

pub record ReportSequencer : Type 0 where
  pub gap_pool : GapPool
  pub terminal_cache : TerminalCache

unfoldable pub make_sequencer : ℕ → ℕ → ReportSequencer
make_sequencer pool cache = record { gap_pool = make_pool pool; terminal_cache = make_cache cache }

-- The sequencer and the order store that it is lent.
pub record System : Type 0 where
  pub sequencer : ReportSequencer
  pub oms : Oms

-- The case `replace_ack`: price and volume change in place, `reserved_` does not.
unfoldable pub replace : Oms → ExecReport → Bool × Oms
unfolding order_at
replace o report = elim (find_slot o report.ref) [
  | none ↦ (false, o)
  | some slot ↦
      let order = order_at o slot in
      if not (is_terminal order.state)
        && not (is_unknown order.state)
        && ltb_ℤ order.filled_volume report.volume
      then (
        true,
        write o slot
            (record order { limit_price_ticks = report.price; requested_volume = report.volume }),
      )
      else (false, o)
]

-- The switch of `apply_one`.
unfoldable pub apply_kind : ReportKind → Oms → ExecReport → Bool × Oms
apply_kind ack o report = transition o report.ref acknowledged
apply_kind fill_report o report = fill o report.ref report.volume
apply_kind cancel_pending_report o report = transition o report.ref cancel_pending
apply_kind cancelled_report o report = transition o report.ref cancelled
apply_kind reject o report = transition o report.ref rejected
apply_kind replace_ack o report = replace o report

-- What `apply_one` does behind a report that was legal.
unfoldable pub acknowledge : ReportSequencer → Oms → ExecReport → System
unfolding order_at
acknowledge s o report = elim (find_slot o report.ref) [
  | none ↦ record {
    sequencer = record s { terminal_cache = remember s.terminal_cache report.ref };
    oms = o;
  }
  | some slot ↦ record {
    sequencer = s;
    oms = write o slot (record (order_at o slot) { last_applied_seq = report.venue_seq });
  }
]

unfoldable pub apply_one : System → ExecReport → ReportOutcome × System
apply_one t report =
    let (ok, o) = apply_kind report.kind t.oms report in
    if ok then (applied, acknowledge t.sequencer o report) else (illegal, record t { oms = o })

abbrev pub is_applied : ReportOutcome → Bool
is_applied applied = true
is_applied _ = false

-- `gap_pool_ = pool`
abbrev pub with_pool : System → GapPool → System
with_pool t pool = record t { sequencer = record t.sequencer { gap_pool = pool } }

-- The loop of `drain`; each round but the last takes a report out of the pool.
unfoldable pub drain_loop : ℕ → System → BrokerOrderRef → System
drain_loop zero t ref = t
drain_loop (suc fuel) t ref = elim (find t.oms ref) [
  | none ↦ with_pool t (discard_all_for t.sequencer.gap_pool ref)
  | some order ↦ elim (take_report t.sequencer.gap_pool ref (add64 order.last_applied_seq 1)) [
    | none ↦ t
    | some taken ↦
        let done = apply_one (with_pool t taken.1) taken.0 in
        elim (is_applied done.0) [ true ↦ drain_loop fuel done.1 ref | false ↦ done.1 ]
  ]
]

unfoldable pub drain : System → BrokerOrderRef → System
drain t ref =
    if t.sequencer.gap_pool.held_count == 0
    then t
    else drain_loop (t.sequencer.gap_pool.held_count + 1) t ref

-- A report ahead of a gap.
unfoldable pub hold_report : System → ExecReport → ReportOutcome × System
hold_report t report =
    let (held, pool) = hold t.sequencer.gap_pool report in
    (if held then held_for_gap else gap_pool_exhausted, with_pool t pool)

-- A report in sequence.
unfoldable pub apply_next : System → ExecReport → ReportOutcome × System
apply_next t report =
    let (outcome, t') = apply_one t report in
    (outcome, if is_applied outcome then drain t' report.ref else t')

-- A report whose order is live.
unfoldable pub process_live : System → ExecReport → Order → ReportOutcome × System
process_live t report order =
    if leb report.venue_seq order.last_applied_seq
    then (duplicate, t)
    else if ltb (add64 order.last_applied_seq 1) report.venue_seq
    then hold_report t report
    else apply_next t report

unfoldable pub process : System → ExecReport → ReportOutcome × System
process t report = elim (find t.oms report.ref) [
  | none ↦
      (if contains t.sequencer.terminal_cache report.ref then terminal_late else unknown_order, t)
  | some order ↦ process_live t report order
]

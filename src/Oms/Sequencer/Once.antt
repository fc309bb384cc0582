-- ===== src/Oms/Sequencer/Once.antt =====
-- A report that was applied is never applied again.
use mathlib.Core.Bool.{true≢false}
use market_microstructure_en.Base.{
  ℕ, ◌+◌, ◌<◌, ◌≡◌, sym, ap, ◌∙◌, arith, ltb, leb, ◌==◌, true, false, Bool-cases, inl, inr, ◌⊎◌,
  Option-cases,
}
use market_microstructure_en.Base.Words.{add64, u64_mod}
use market_microstructure_en.Exec.Types.{BrokerOrderRef, Order}
use market_microstructure_en.Oms.Oms.{find}
use market_microstructure_en.Oms.Report.{ExecReport, applied, duplicate, terminal_late}
use market_microstructure_en.Oms.Report.Pool.{hold-Inv}
use market_microstructure_en.Oms.Sequencer.{
  System, apply_one, is_applied, drain, hold_report, apply_next, process_live, process,
}
use market_microstructure_en.Oms.Sequencer.Behind.{SystemInv, Behind, apply_one_cases}
use market_microstructure_en.Oms.Sequencer.Drain.{with_pool-Inv, drain_loop-Behind}

drain-Behind :
    (t : System) (ref : BrokerOrderRef) (seq : ℕ)
    → SystemInv t
    → Behind t ref seq
    → SystemInv (drain t ref) × Behind (drain t ref) ref seq
unfolding drain
drain-Behind t ref seq v b = elim (Bool-cases (t.sequencer.gap_pool.held_count == 0)) [
  | inl e ↦ rw e (v, b)
  | inr e ↦ rw e (drain_loop-Behind (t.sequencer.gap_pool.held_count + 1) t ref seq v b)
]

hold_report-Inv :
    (t : System) (report : ExecReport)
    → 0 < report.venue_seq
    → SystemInv t
    → SystemInv (hold_report t report).1
unfolding hold_report
hold_report-Inv t report h v = with_pool-Inv t _ v (hold-Inv t.sequencer.gap_pool report h v.pool)

hold_report-outcome :
    (t : System) (report : ExecReport) → is_applied (hold_report t report).0 ≡ false
unfolding hold_report
hold_report-outcome t report = ground arith

apply_next-Inv :
    (t : System) (report : ExecReport)
    → SystemInv t
    → report.venue_seq < u64_mod
    → SystemInv (apply_next t report).1
      × (is_applied (apply_next t report).0 ≡ true
          → Behind (apply_next t report).1 report.ref report.venue_seq)
unfolding apply_next
apply_next-Inv t report v w =
    let (v', _, way) = apply_one_cases t report v w in
    elim way [
      | inl (e, b) ↦
          let d = drain-Behind (apply_one t report).1 report.ref report.venue_seq v' b in
          rw e (d.0, λ _. d.1)
      | inr (e, _, _) ↦ rw e (v', λ q. absurd (true≢false (sym q)))
    ]

process_live-Inv :
    (t : System) (report : ExecReport) (x : Order)
    → SystemInv t
    → report.venue_seq < u64_mod
    → SystemInv (process_live t report x).1
      × (is_applied (process_live t report x).0 ≡ true
          → Behind (process_live t report x).1 report.ref report.venue_seq)
unfolding process_live
process_live-Inv t report x v w = elim (Bool-cases (leb report.venue_seq x.last_applied_seq)) [
  | inl e ↦ rw e (v, λ q. absurd (true≢false (sym q)))
  | inr e ↦ rw e (elim (Bool-cases (ltb (add64 x.last_applied_seq 1) report.venue_seq)) [
    | inl a ↦ rw a (
      hold_report-Inv t report (ground arith) v,
      λ q. absurd (true≢false (sym q ∙ hold_report-outcome t report)),
    )
    | inr a ↦ rw a (apply_next-Inv t report v w)
  ])
]

process_lem :
    (t : System) (report : ExecReport)
    → SystemInv t
    → report.venue_seq < u64_mod
    → SystemInv (process t report).1
      × (is_applied (process t report).0 ≡ true
          → Behind (process t report).1 report.ref report.venue_seq)
unfolding process
process_lem t report v w = elim (Option-cases (find t.oms report.ref)) [
  | inl e ↦ rw (e, process) (v, λ q. absurd (ground arith))
  | inr (x, e) ↦ rw (e, process) (process_live-Inv t report x v w)
]

-- Processing any report keeps the invariants of the store, the pool of held reports and the cache.
pub process-Inv :
    (t : System) (report : ExecReport)
    → SystemInv t
    → report.venue_seq < u64_mod
    → SystemInv (process t report).1
process-Inv t report v w = (process_lem t report v w).0

-- A report that is behind its order changes nothing.
process-Behind :
    (t : System) (report : ExecReport)
    → Behind t report.ref report.venue_seq
    → ((process t report) ≡ (duplicate, t)) ⊎ ((process t report) ≡ (terminal_late, t))
unfolding process process_live Behind
process-Behind t report (inl (x, found, le, _)) =
    let below : leb report.venue_seq x.last_applied_seq ≡ true = ground arith in
    inl (rw (found, process) (rw below))
process-Behind t report (inr (missing, known)) = inr (rw (missing, process) (rw known))

-- A report that was applied is not applied again: processing it once more is a duplicate or, if its
-- order has left the store, late, and changes neither the store nor the sequencer.
pub process_again :
    (t : System) (report : ExecReport)
    → SystemInv t
    → report.venue_seq < u64_mod
    → (process t report).0 ≡ applied
    → (process (process t report).1 report ≡ (duplicate, (process t report).1))
      ⊎ (process (process t report).1 report ≡ (terminal_late, (process t report).1))
process_again t report v w done =
    process-Behind (process t report).1 report ((process_lem t report v w).1 (ap is_applied done))

-- ===== src/Oms/Sequencer/Behind.antt =====
-- What one report that is applied leaves behind: its order counts it, or is remembered as finished.
use market_microstructure_en.Base.{
  ℕ, ◌≤◌, ◌<◌, ◌≡◌, refl, ◌∙◌, arith, Bool, true, false, Bool-cases, inl, inr, ◌⊎◌, none, some,
}
use market_microstructure_en.Base.Words.{u64_mod}
use market_microstructure_en.Exec.Types.{BrokerOrderRef, Order, ref_eq_refl}
use market_microstructure_en.Oms.Oms.{Oms, find, order_at}
use market_microstructure_en.Oms.Oms.Inv.{Inv, find_slot_cases, find-lookup}
use market_microstructure_en.Oms.Oms.Keep.{write-Inv, order_at-ref}
use market_microstructure_en.Oms.Oms.Fills.{find-write}
use market_microstructure_en.Oms.Report.{ExecReport, contains}
use market_microstructure_en.Oms.Report.Pool.{PoolInv}
use market_microstructure_en.Oms.Report.Cache.{CacheInv, contains-remember, remember-Inv}
use market_microstructure_en.Oms.Sequencer.{
  ReportSequencer, System, apply_kind, acknowledge, apply_one, is_applied,
}
use market_microstructure_en.Oms.Sequencer.Kept.{Unmoved, apply_kind-Kept}

-- The invariants of the store, the pool and the cache.
pub record SystemInv (t : System) : Type 0 where
  pub oms : Inv t.oms
  pub pool : PoolInv t.sequencer.gap_pool
  pub cache : CacheInv t.sequencer.terminal_cache

-- The reports of an order up to a number are behind it: the order counts them as applied, or has
-- left the store and is remembered.
unfoldable pub Behind : System → BrokerOrderRef → ℕ → Type 0
Behind t ref seq =
    ((x : Order) × (find t.oms ref ≡ some x)
      × (seq ≤ x.last_applied_seq)
      × (x.last_applied_seq < u64_mod))
    ⊎ ((find t.oms ref ≡ none) × (contains t.sequencer.terminal_cache ref ≡ true))

pub acknowledge-Behind :
    (s : ReportSequencer) (o : Oms) (report : ExecReport)
    → Inv o
    → PoolInv s.gap_pool
    → CacheInv s.terminal_cache
    → report.venue_seq < u64_mod
    → SystemInv (acknowledge s o report)
      × Behind (acknowledge s o report) report.ref report.venue_seq
      × ((acknowledge s o report).sequencer.gap_pool ≡ s.gap_pool)
unfolding acknowledge Behind order_at
acknowledge-Behind s o report v p c w = elim (find_slot_cases o report.ref v) [
  | inl (s', h, hk, found, _) ↦
      rw (found, acknowledge)
        (
          record { oms = write-Inv o s' _ h (order_at-ref o s') v; pool = p; cache = c },
          inl (
            record (order_at o s') { last_applied_seq = report.venue_seq },
            find-write o s' _ report.ref v h (order_at-ref o s') ∙ rw (hk, ref_eq_refl report.ref),
            omega arith,
            w,
          ),
          refl,
        )
  | inr (_, missing, hl) ↦
      rw (missing, acknowledge)
        (
          record { oms = v; pool = p; cache = remember-Inv s.terminal_cache report.ref c },
          inr (find-lookup o report.ref v ∙ hl, contains-remember s.terminal_cache report.ref c),
          refl,
        )
]

-- What `apply_one` does: it applies the report, which is then behind its order, or it leaves the order
-- where it was.
pub apply_one_cases :
    (t : System) (report : ExecReport)
    → SystemInv t
    → report.venue_seq < u64_mod
    → SystemInv (apply_one t report).1
      × ((apply_one t report).1.sequencer.gap_pool ≡ t.sequencer.gap_pool)
      × (((is_applied (apply_one t report).0 ≡ true)
            × Behind (apply_one t report).1 report.ref report.venue_seq)
          ⊎ ((is_applied (apply_one t report).0 ≡ false)
              × ((apply_one t report).1.sequencer ≡ t.sequencer)
              × Unmoved t.oms (apply_one t report).1.oms report.ref))
unfolding apply_one
apply_one_cases t report v w =
    let r : Bool × Oms = apply_kind report.kind t.oms report in
    let k = apply_kind-Kept report.kind t.oms report v.oms in
    elim (Bool-cases (apply_kind report.kind t.oms report).0) [
      | inl e ↦
          let (sv, b, p) = acknowledge-Behind t.sequencer r.1 report k.inv v.pool v.cache w in
          rw e (sv, p, inl (refl, b))
      | inr e ↦ rw e (
        record { oms = k.inv; pool = v.pool; cache = v.cache },
        refl,
        inr (refl, refl, k.unmoved e),
      )
    ]

-- ===== src/Oms/Sequencer/Drain.antt =====
-- The drain of the held reports: what it keeps, and that its fuel is enough.
use mathlib.Core.Path.{subst}
use market_microstructure_en.Base.{
  ℕ, zero, suc, ◌+◌, ◌≤◌, ◌<◌, ◌≡◌, ap, arith, inl, inr, some, Option-cases,
}
use market_microstructure_en.Base.Words.{add64, u64_mod}
use market_microstructure_en.Exec.Types.{BrokerOrderRef, Order}
use market_microstructure_en.Oms.Oms.{find}
use market_microstructure_en.Oms.Report.{GapPool}
use market_microstructure_en.Oms.Report.Pool.{PoolInv, take_report_cases, discard_all_for-Inv}
use market_microstructure_en.Oms.Sequencer.{System, apply_one, with_pool, drain_loop}
use market_microstructure_en.Oms.Sequencer.Kept.{Unmoved}
use market_microstructure_en.Oms.Sequencer.Behind.{SystemInv, Behind, apply_one_cases}

pub with_pool-Inv :
    (t : System) (pool : GapPool) → SystemInv t → PoolInv pool → SystemInv (with_pool t pool)
with_pool-Inv t pool v p = record { oms = v.oms; pool = p; cache = v.cache }

-- A report that is taken from the pool has the number after the last applied one.
pub next-le : (n : ℕ) → n < u64_mod → 0 < add64 n 1 → n ≤ add64 n 1
next-le n w h = omega arith

pub word-add64 : (n : ℕ) → add64 n 1 < u64_mod
word-add64 n = omega arith

Behind-le : (t : System) (ref : BrokerOrderRef) (a b : ℕ) → a ≤ b → Behind t ref b → Behind t ref a
unfolding Behind
Behind-le t ref a b h (inl (x, found, le, w)) = inl (x, found, omega arith, w)
Behind-le t ref a b h (inr gone) = inr gone

Behind-Unmoved :
    (t t' : System) (ref : BrokerOrderRef) (x : Order) (seq : ℕ)
    → find t.oms ref ≡ some x
    → seq ≤ x.last_applied_seq
    → x.last_applied_seq < u64_mod
    → Unmoved t.oms t'.oms ref
    → Behind t' ref seq
unfolding Behind
Behind-Unmoved t t' ref x seq found le w u =
    let (x', found', same) = u x found in inl (x', found', omega (arith, same), omega (arith, same))

pub drain_loop-Behind :
    (fuel : ℕ) (t : System) (ref : BrokerOrderRef) (seq : ℕ)
    → SystemInv t
    → Behind t ref seq
    → SystemInv (drain_loop fuel t ref) × Behind (drain_loop fuel t ref) ref seq
unfolding drain_loop Behind
drain_loop-Behind zero t ref seq v b = (v, b)
drain_loop-Behind (suc fuel) t ref seq v (inr (missing, known)) =
    rw (missing, drain_loop)
      (
        with_pool-Inv t _ v (discard_all_for-Inv t.sequencer.gap_pool ref v.pool),
        inr (missing, known),
      )
drain_loop-Behind (suc fuel) t ref seq v (inl (x, found, le, w)) =
    elim (take_report_cases t.sequencer.gap_pool ref (add64 x.last_applied_seq 1) v.pool) [
      | inl q ↦ rw (found, drain_loop) (rw q (v, inl (x, found, le, w)))
      | inr (report, rest, q, same, number, positive, _, p) ↦
          let t1 : System = with_pool t rest in
          let small : report.venue_seq < u64_mod = omega (arith, number) in
          let (v', _, way) = apply_one_cases t1 report (with_pool-Inv t rest v p) small in
          elim way [
            | inl (e, b) ↦
                rw (found, drain_loop)
                  (rw (q, e)
                    (drain_loop-Behind fuel (apply_one t1 report).1 ref seq v' (
                      Behind-le (apply_one t1 report).1 ref seq report.venue_seq
                        (omega (arith, number, le, next-le x.last_applied_seq w positive))
                        (subst (λ r. Behind (apply_one t1 report).1 r report.venue_seq) same b))))
            | inr (e, _, u) ↦
                rw (found, drain_loop)
                  (rw (q, e)
                    (
                      v',
                      Behind-Unmoved t (apply_one t1 report).1 ref x seq found le w
                          (subst (λ r. Unmoved t.oms (apply_one t1 report).1.oms r) same u),
                    ))
          ]
    ]

-- Fuel beyond the number of held reports changes nothing.
pub drain_loop-fuel :
    (f g : ℕ) (t : System) (ref : BrokerOrderRef)
    → SystemInv t
    → t.sequencer.gap_pool.held_count < f
    → t.sequencer.gap_pool.held_count < g
    → drain_loop f t ref ≡ drain_loop g t ref
unfolding drain_loop
drain_loop-fuel zero g t ref v hf hg = absurd (omega arith)
drain_loop-fuel (suc f) zero t ref v hf hg = absurd (omega arith)
drain_loop-fuel (suc f) (suc g) t ref v hf hg = elim (Option-cases (find t.oms ref)) [
  | inl e ↦ rw (e, drain_loop)
  | inr (x, e) ↦
      rw (e, drain_loop)
        (elim (take_report_cases t.sequencer.gap_pool ref (add64 x.last_applied_seq 1) v.pool) [
          | inl q ↦ rw q
          | inr (report, rest, q, _, number, _, less, p) ↦
              let t1 : System = with_pool t rest in
              let small : report.venue_seq < u64_mod = omega (arith, number) in
              let (v', kept, way) = apply_one_cases t1 report (with_pool-Inv t rest v p) small in
              let held : (apply_one t1 report).1.sequencer.gap_pool.held_count ≡ rest.held_count =
                ap (λ (pool : GapPool). pool.held_count) kept in
              elim way [
                | inl (e', _) ↦
                    rw (q, e')
                      (drain_loop-fuel f g (apply_one t1 report).1 ref v'
                        (omega (arith, held, less)) (omega (arith, held, less)))
                | inr (e', _, _) ↦ rw (q, e')
              ]
        ])
]

-- The loop of `drain` ends: any more rounds than the one for each held report and a last one change
-- nothing.
pub drain-ends :
    (t : System) (ref : BrokerOrderRef) (extra : ℕ)
    → SystemInv t
    → drain_loop (t.sequencer.gap_pool.held_count + 1 + extra) t ref
      ≡ drain_loop (t.sequencer.gap_pool.held_count + 1) t ref
drain-ends t ref extra v = drain_loop-fuel _ _ t ref v (omega arith) (omega arith)

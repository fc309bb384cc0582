-- ===== src/Oms/Sequencer/Kept.antt =====
-- What applying one report does to the order store, whatever its kind.
use mathlib.Core.Bool.{true≢false}
use market_microstructure_en.Base.{
  ℕ, ◌<◌, ◌≡◌, refl, sym, ap, ◌∙◌, not, ◌&&◌, length, Bool, true, false, Bool-cases, inl, inr, some,
}
use market_microstructure_en.Base.Int.{ℤ, ltb_ℤ}
use market_microstructure_en.Exec.Types.{
  BrokerOrderRef, Order, OrderState, is_terminal, is_unknown, acknowledged, cancel_pending,
  cancelled, rejected, ref_eq_refl,
}
use market_microstructure_en.Oms.Index.Indexed.{key}
use market_microstructure_en.Oms.Oms.{Oms, find, order_at, transition, fill, add_fill}
use market_microstructure_en.Oms.Oms.Inv.{Inv, find_slot_cases}
use market_microstructure_en.Oms.Oms.Keep.{write-Inv, order_at-ref}
use market_microstructure_en.Oms.Oms.Steps.{
  transition_cases, fill_cases, booked, booked-Inv, change_state-Inv,
}
use market_microstructure_en.Oms.Oms.Refine.{find_of_slot}
use market_microstructure_en.Oms.Oms.Fills.{find-write}
use market_microstructure_en.Oms.Report.{
  ReportKind, ack, fill_report, cancel_pending_report, cancelled_report, reject, replace_ack,
  ExecReport,
}
use market_microstructure_en.Oms.Sequencer.{replace, apply_kind}

-- An order is still live, with the same number of reports applied.
abbrev pub Unmoved : Oms → Oms → BrokerOrderRef → Type 0
Unmoved o o' ref =
    (x : Order)
    → find o ref ≡ some x
    → (x' : Order) × (find o' ref ≡ some x') × (x'.last_applied_seq ≡ x.last_applied_seq)

-- A call that keeps the invariant and that, if it refuses, leaves the order where it was.
pub record Kept (o : Oms) (ref : BrokerOrderRef) (r : Bool × Oms) : Type 0 where
  pub inv : Inv r.1
  pub unmoved : r.0 ≡ false → Unmoved o r.1 ref

refused-Kept : (o : Oms) (ref : BrokerOrderRef) → Inv o → Kept o ref (false, o)
refused-Kept o ref v = record { inv = v; unmoved = λ _ x e. (x, e, refl) }

done-Kept : (o o' : Oms) (ref : BrokerOrderRef) → Inv o' → Kept o ref (true, o')
done-Kept o o' ref v = record { inv = v; unmoved = λ q. absurd (true≢false q) }

transition-Kept :
    (o : Oms) (ref : BrokerOrderRef) (next : OrderState)
    → Inv o
    → Kept o ref (transition o ref next)
transition-Kept o ref next v =
    transition_cases (Kept o ref) o ref next v (refused-Kept o ref v)
      (λ s h _ _. done-Kept o _ ref (change_state-Inv o s next h v))

-- A booked fill leaves its order live.
booked-Unmoved :
    (o : Oms) (ref : BrokerOrderRef) (s : ℕ) (volume : ℤ)
    → Inv o
    → s < length o.orders
    → key o.orders s ≡ ref
    → Unmoved o (booked o s volume) ref
unfolding add_fill
booked-Unmoved o ref s volume v h hk x e =
    let here : find o ref ≡ some (order_at o s) = ap (find o) (sym hk) ∙ find_of_slot o s v h in
    let same : order_at o s ≡ x = cc in
    (
      add_fill (order_at o s) volume,
      find-write o s (add_fill (order_at o s) volume) ref v h (order_at-ref o s)
          ∙ rw (hk, ref_eq_refl ref),
      ap (λ (y : Order). y.last_applied_seq) same,
    )

fill-Kept : (o : Oms) (ref : BrokerOrderRef) (volume : ℤ) → Inv o → Kept o ref (fill o ref volume)
fill-Kept o ref volume v =
    fill_cases (Kept o ref) o ref volume v (refused-Kept o ref v) (λ s h hk _.
      let b : Oms = booked o s volume in
      let bv : Inv b = booked-Inv o s volume h v in
      transition_cases (Kept o ref) b ref _ bv
        (record { inv = bv; unmoved = λ _. booked-Unmoved o ref s volume v h hk })
        (λ s' h' _ _. done-Kept o _ ref (change_state-Inv b s' _ h' bv)))

replace-Kept : (o : Oms) (report : ExecReport) → Inv o → Kept o report.ref (replace o report)
unfolding replace
replace-Kept o report v = elim (find_slot_cases o report.ref v) [
  | inr (_, missing, _) ↦ rw (missing, replace) (refused-Kept o report.ref v)
  | inl (s, h, hk, found, _) ↦
      rw (found, replace)
        (elim (Bool-cases (
          not (is_terminal (order_at o s).state)
          && not (is_unknown (order_at o s).state)
          && ltb_ℤ (order_at o s).filled_volume report.volume)) [
            | inl e ↦ rw e (done-Kept o _ report.ref (write-Inv o s _ h (order_at-ref o s) v))
            | inr e ↦ rw e (refused-Kept o report.ref v)
          ])
]

pub apply_kind-Kept :
    (kind : ReportKind) (o : Oms) (report : ExecReport)
    → Inv o
    → Kept o report.ref (apply_kind kind o report)
unfolding apply_kind
apply_kind-Kept ack o report v = transition-Kept o report.ref acknowledged v
apply_kind-Kept fill_report o report v = fill-Kept o report.ref report.volume v
apply_kind-Kept cancel_pending_report o report v = transition-Kept o report.ref cancel_pending v
apply_kind-Kept cancelled_report o report v = transition-Kept o report.ref cancelled v
apply_kind-Kept reject o report v = transition-Kept o report.ref rejected v
apply_kind-Kept replace_ack o report v = replace-Kept o report v

-- ===== src/Oms/Venue/Matched.antt =====
-- Two views of the orders match throughout if and only if they show the same orders.
use mathlib.Core.List.Perm
use mathlib.Core.List.{Perm}
use mathlib.Core.Logic.{∥∥₁_elim}
use mathlib.Core.Bool.{Bool-set}
use mathlib.Core.Path.{subst}
use market_microstructure_en.Oms.Venue.Sorted.{Distinct, sort_by_ref-Perm, sort_by_ref-same}
use market_microstructure_en.Base.{
  ℕ, zero, suc, ◌+◌, ◌≤◌, ◌≡◌, ◌↔◌, refl, sym, ap, ◌∙◌, arith, Bool, true, false, ◌&&◌, List, [],
  ◌∷◌, length, Bool-cases, both_true, inl, inr,
}
use market_microstructure_en.Exec.Types.{
  OrderState, new_order, risk_rejected, pending_send, sent, acknowledged, rejected, unknown,
  partially_filled, filled, cancel_pending, cancelled, expired, ref_eq, ref_eq_iff, ref_eq_refl,
}
use market_microstructure_en.Exec.Broker.State.{state_code}
use market_microstructure_en.Oms.Recovery.{state_of}
use market_microstructure_en.Oms.Venue.{OrderSnapshot}
use market_microstructure_en.Oms.Venue.Compare.{
  OrderReconcileStatus, OrderReconcileResult, matched, by_ref, insert_by_ref, sort_by_ref,
  status_of, merge_step, merge_views, compare_orders,
}

abbrev pub is_matched : OrderReconcileStatus → Bool
is_matched matched = true
is_matched _ = false

unfoldable pub all_matched : List OrderReconcileResult → Bool
all_matched [] = true
all_matched (r ∷ rs) = is_matched r.status && all_matched rs

state_code_back : (s : OrderState) → state_of (state_code s) ≡ s
state_code_back new_order = refl
state_code_back risk_rejected = refl
state_code_back pending_send = refl
state_code_back sent = refl
state_code_back acknowledged = refl
state_code_back rejected = refl
state_code_back unknown = refl
state_code_back partially_filled = refl
state_code_back filled = refl
state_code_back cancel_pending = refl
state_code_back cancelled = refl
state_code_back expired = refl

state_code_injective : (a b : OrderState) → state_code a ≡ state_code b → a ≡ b
state_code_injective a b e = sym (state_code_back a) ∙ ap (λ n. state_of n) e ∙ state_code_back b

status_of_refl : (l : OrderSnapshot) → status_of l l ≡ matched
unfolding status_of
status_of_refl l = ground arith

status_of_matched :
    (l v : OrderSnapshot) → ref_eq l.ref v.ref ≡ true → is_matched (status_of l v) ≡ true → l ≡ v
unfolding status_of
status_of_matched l v r h =
    let refs : l.ref ≡ v.ref = (ref_eq_iff l.ref v.ref).0 r in
    let codes : state_code l.state ≡ state_code v.state = ground arith in
    let states = state_code_injective l.state v.state codes in
    let fills : l.filled_volume ≡ v.filled_volume = ground arith in
    let volumes : l.requested_volume ≡ v.requested_volume = ground arith in cc

-- A round of the merge that matches has the same order in front of both views.
step_matched :
    (l v : OrderSnapshot) (ls vs : List OrderSnapshot)
    → is_matched (merge_step l ls v vs).0.status ≡ true
    → (l ≡ v) × ((merge_step l ls v vs).1 ≡ ls) × ((merge_step l ls v vs).2 ≡ vs)
unfolding merge_step
step_matched l v ls vs h = elim (Bool-cases (ref_eq l.ref v.ref)) [
  | inl r ↦
      let same : is_matched (status_of l v) ≡ true = ground arith in
      (status_of_matched l v r same, rw (merge_step, r) refl, rw (merge_step, r) refl)
  | inr r ↦ elim (Bool-cases (by_ref l v)) [
    | inl b ↦ absurd (ground arith)
    | inr b ↦ absurd (ground arith)
  ]
]

step_same :
    (l : OrderSnapshot) (ls vs : List OrderSnapshot)
    → merge_step l ls l vs ≡ (record { ref = l.ref; status = matched }, ls, vs)
unfolding merge_step
step_same l ls vs = rw (merge_step, ref_eq_refl l.ref, status_of_refl l) refl

merge_matched :
    (room : ℕ) (ls vs : List OrderSnapshot)
    → length ls + length vs ≤ room
    → all_matched (merge_views room ls vs) ≡ true
    → ls ≡ vs
unfolding merge_views all_matched
merge_matched room [] [] fits h = refl
merge_matched zero [] (v ∷ vs) fits h = absurd (omega (arith, fits))
merge_matched zero (l ∷ ls) vs fits h = absurd (omega (arith, fits))
merge_matched (suc room) [] (v ∷ vs) fits h = absurd (grind arith)
merge_matched (suc room) (l ∷ ls) [] fits h = absurd (grind arith)
merge_matched (suc room) (l ∷ ls) (v ∷ vs) fits h =
    let step = merge_step l ls v vs in
    let (front, back) =
      both_true (is_matched step.0.status) (all_matched (merge_views room step.1 step.2)) h in
    let (same, left, left') = step_matched l v ls vs front in
    let back' : all_matched (merge_views room ls vs) ≡ true =
      ap (λ xs. all_matched (merge_views room xs vs)) (sym left)
      ∙ ap (λ xs. all_matched (merge_views room step.1 xs)) (sym left')
      ∙ back in
    let rest = merge_matched room ls vs (omega (arith, fits)) back' in cc

merge_same : (room : ℕ) (ls : List OrderSnapshot) → all_matched (merge_views room ls ls) ≡ true
unfolding merge_views all_matched
merge_same zero ls = refl
merge_same (suc room) [] = refl
merge_same (suc room) (l ∷ ls) = rw (step_same l ls ls) (merge_same room ls)

insert_by_ref-length :
    (x : OrderSnapshot) (xs : List OrderSnapshot) → length (insert_by_ref x xs) ≡ suc (length xs)
unfolding insert_by_ref
insert_by_ref-length x [] = refl
insert_by_ref-length x (y ∷ ys) = elim (Bool-cases (by_ref y x)) [
  | inl e ↦ rw e (ap suc (insert_by_ref-length x ys))
  | inr e ↦ rw e refl
]

sort_by_ref-length : (xs : List OrderSnapshot) → length (sort_by_ref xs) ≡ length xs
unfolding sort_by_ref
sort_by_ref-length [] = refl
sort_by_ref-length (x ∷ xs) =
    insert_by_ref-length x (sort_by_ref xs) ∙ ap suc (sort_by_ref-length xs)

-- With room for both views in the buffer and no reference twice in the local view, `compare` reports only
-- matches if and only if the venue's view has the same orders, with the same states and volumes, in any
-- order.
pub compare_iff :
    (local venue : List OrderSnapshot) (out_capacity : ℕ)
    → length local + length venue ≤ out_capacity
    → Distinct local
    → (all_matched (compare_orders local venue out_capacity) ≡ true) ↔ Perm local venue
unfolding compare_orders
compare_iff local venue out_capacity fits distinct = (
  λ h.
      let same =
        merge_matched out_capacity (sort_by_ref local) (sort_by_ref venue)
          (omega (arith, fits, sort_by_ref-length local, sort_by_ref-length venue)) h in
      Perm.trans (Perm.symm (sort_by_ref-Perm local))
        (subst (λ xs. Perm xs venue) (sym same) (sort_by_ref-Perm venue)),
  λ p.
      ∥∥₁_elim p (Bool-set _ _)
        (λ d. rw (sort_by_ref-same d distinct) (merge_same out_capacity (sort_by_ref venue))),
)

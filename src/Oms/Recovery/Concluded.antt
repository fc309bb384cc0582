-- ===== src/Oms/Recovery/Concluded.antt =====
-- What the streaming recovery does after its last record is what the one from a journal does.
use mathlib.Core.Path.{fun_ext}
use market_microstructure_en.Base.{
  ℕ, zero, suc, ◌+◌, ◌≡◌, refl, ap, ◌∙◌, arith, Bool, true, false, ◌&&◌, ◌||◌, not, if◌then◌else◌,
  List, [], ◌∷◌, length, Option, none, some, Bool-cases, Option-cases, inl, inr,
}
use market_microstructure_en.Exec.Types.{is_terminal, is_unknown}
use market_microstructure_en.Exec.Account.{Position, is_closed}
use market_microstructure_en.Oms.Oms.{Oms, order_at, mark_unknown_on_restart}
use market_microstructure_en.Risk.Limits.{HaltReason, manual_kill}
use market_microstructure_en.Oms.Recovery.{Progress}
use market_microstructure_en.Oms.Recovery.Recover.{mark_live, open_held_count, is_no_halt, conclude}
use market_microstructure_en.Oms.Recovery.Streaming.{
  stream_mark_one, stream_mark, stream_open, stream_conclude,
}

-- The guard of a live order, in the shapes of the two functions.
mark_guard {ℓ} :
    {A : Type ℓ} (done unknown marked : Bool) (x y z : A)
    → (if not done && not unknown then if not marked then x else y else z)
      ≡ (if done || unknown then z else if marked then y else x)
mark_guard true unknown marked x y z = refl
mark_guard false true marked x y z = refl
mark_guard false false true x y z = refl
mark_guard false false false x y z = refl

abbrev marks_on : (Oms → Option Oms) → Option Oms → Option Oms
marks_on f none = none
marks_on f (some orders) = f orders

stream_mark_lem : (orders : Oms) (k left : ℕ) → stream_mark orders k left ≡ mark_live orders k left
unfolding stream_mark mark_live stream_mark_one
stream_mark_lem orders k zero = refl
stream_mark_lem orders k (suc left) =
    let o = order_at orders k in
    let marked = mark_unknown_on_restart orders o.ref in
    ap (marks_on (λ orders'. stream_mark orders' (suc k) left)) (
      mark_guard (is_terminal o.state) (is_unknown o.state) marked.0 none (some marked.1)
        (some orders))
    ∙ ap
        (λ f. marks_on f (
          if is_terminal o.state || is_unknown o.state
          then some orders
          else if marked.0
          then some marked.1
          else none))
        (fun_ext λ orders'. stream_mark_lem orders' (suc k) left)

stream_open_lem : (n : ℕ) (ps : List Position) → stream_open n ps ≡ n + open_held_count ps
unfolding stream_open open_held_count
stream_open_lem n [] = omega arith
stream_open_lem n (p ∷ ps) = elim (Bool-cases (is_closed p.state)) [
  | inl e ↦ rw e (stream_open_lem n ps)
  | inr e ↦ rw e (stream_open_lem (n + 1) ps ∙ omega arith)
]

stream_open_zero : (ps : List Position) → stream_open 0 ps ≡ open_held_count ps
stream_open_zero ps = stream_open_lem 0 ps ∙ omega arith

xor_guard {ℓ} :
    {A : Type ℓ} (a b : Bool) (x y : A)
    → (if (if a then not b else b) then x else y) ≡ (if a && not b || not a && b then x else y)
xor_guard true true x y = refl
xor_guard true false x y = refl
xor_guard false true x y = refl
xor_guard false false x y = refl

halt_guard :
    (kill : Bool) (halt : HaltReason)
    → (if kill then if is_no_halt halt then manual_kill else halt else halt)
      ≡ (if kill && is_no_halt halt then manual_kill else halt)
halt_guard true halt = refl
halt_guard false halt = refl

pub stream_conclude_lem :
    (p : Progress) (kill : Bool) (halt : HaltReason)
    → stream_conclude p kill halt ≡ conclude p kill halt
unfolding conclude stream_conclude
stream_conclude_lem p kill halt =
    let s = p.state in
    let marks = stream_mark_lem s.orders 0 (length s.orders.orders) in
    elim (Option-cases (mark_live s.orders 0 (length s.orders.orders))) [
      | inl e ↦ rw (marks, e) (xor_guard p.have_account p.have_pnl none none)
      | inr (orders, e) ↦
          rw (marks, e)
            (rw (stream_open_zero s.positions.positions, halt_guard kill halt)
              (xor_guard p.have_account p.have_pnl none _))
    ]

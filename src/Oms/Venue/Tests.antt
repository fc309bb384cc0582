-- ===== src/Oms/Venue/Tests.antt =====
-- Two views of the same two orders, in different orders.
use market_microstructure_en.Base.{ℕ, ◌≡◌, ◌↔◌, arith, true, List, [], ◌∷◌}
use market_microstructure_en.Base.Int.{pos}
use market_microstructure_en.Exec.Types.{acknowledged}
use market_microstructure_en.Oms.Venue.{OrderSnapshot}
use market_microstructure_en.Oms.Venue.Compare.{compare_orders}
use market_microstructure_en.Oms.Venue.Sorted.{Distinct}
use mathlib.Core.List.{Perm, Pairwise, not-mem-nil, eq-or-mem_of_mem-cons}
use mathlib.Core.Logic.Or
use mathlib.Core.HLevel.{⊥_prop}
use market_microstructure_en.Exec.Types.{BrokerOrderRef}
use market_microstructure_en.Base.{ap, ◌∙◌}
use market_microstructure_en.Oms.Venue.Matched.{all_matched, compare_iff}

abbrev shown : ℕ → OrderSnapshot
shown id = record {
  ref = record { run_id = 1; logical_order_id = id };
  state = acknowledged;
  requested_volume = pos 4;
  filled_volume = pos 0;
}

abbrev ours : List OrderSnapshot
ours = shown 2 ∷ shown 1 ∷ []

abbrev theirs : List OrderSnapshot
theirs = shown 1 ∷ shown 2 ∷ []

apart : {x : OrderSnapshot} → (shown 2).ref ≡ x.ref → x ≡ shown 1 → ⊥
apart e f =
    let same : 2 ≡ 1 =
      ap (λ (r : BrokerOrderRef). r.logical_order_id) (e ∙ ap (λ (s : OrderSnapshot). s.ref) f) in
    absurd (omega (arith, same))

ours-Distinct : Distinct ours
ours-Distinct =
    Pairwise.cons (λ x m e. Or.elim ⊥_prop (eq-or-mem_of_mem-cons m) (apart e) not-mem-nil)
      (Pairwise.cons (λ x m. absurd (not-mem-nil m)) Pairwise.nil)

compare_iff_example : (all_matched (compare_orders ours theirs 4) ≡ true) ↔ Perm ours theirs
compare_iff_example = compare_iff ours theirs 4 (omega arith) ours-Distinct

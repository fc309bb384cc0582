-- ===== src/Oms/Scheduler/Keep.antt =====
-- The scheduler's operations keep its invariant, and a scheduler that was just made meets it.
use market_microstructure_en.Base.{
  ℕ, zero, suc, ◌≤◌, ◌<◌, ◌≡◌, ◌≢◌, not, ◌&&◌, refl, sym, ap, ◌∙◌, arith, true, false, ◌==◌, leb,
  if◌then◌else◌, List, [], ◌∷◌, some, length, length-set, get_or, replicate, length-replicate,
  Bool-cases, Option-cases, inl, inr,
}
use market_microstructure_en.Exec.Types.{Side}
use market_microstructure_en.Oms.RateLimiter.{PendingRequest}
use market_microstructure_en.Oms.Scheduler.{
  Slot, empty_slot, StrategyScheduler, make_scheduler, slot_at, write_slot, slot_of, free_slot,
  register_strategy, enqueue,
}
use market_microstructure_en.Oms.Scheduler.Wait.{
  weight, SchedulerInv, slot_at-write_self, slot_at-write_ne,
}

fresh_slot :
    (max_strategies capacity j : ℕ)
    → get_or (replicate max_strategies (empty_slot capacity)) j (empty_slot capacity)
      ≡ empty_slot capacity
fresh_slot zero capacity j = refl
fresh_slot (suc n) capacity zero = refl
fresh_slot (suc n) capacity (suc j) = fresh_slot n capacity j

pub make_scheduler-Inv :
    (max_strategies capacity : ℕ)
    → 0 < max_strategies
    → SchedulerInv (make_scheduler max_strategies capacity)
unfolding make_scheduler
make_scheduler-Inv n capacity h = record {
  inside = omega (arith, length-replicate n (empty_slot capacity));
  within_quantum = omega arith;
  quanta = λ j r. absurd (cc (fresh_slot n capacity j, r));
}

abbrev slot_weight : Slot → ℕ
slot_weight x = if x.registered then x.quantum else 0

weight-write_self :
    (s : StrategyScheduler) (i : ℕ) (x : Slot)
    → i < length s.slots
    → weight (write_slot s i x) i ≡ slot_weight x
unfolding weight
weight-write_self s i x h = ap slot_weight (slot_at-write_self s i x h)

weight-write_ne :
    (s : StrategyScheduler) (i j : ℕ) (x : Slot) → i ≢ j → weight (write_slot s i x) j ≡ weight s j
unfolding weight
weight-write_ne s i j x h = ap slot_weight (slot_at-write_ne s i j x h)

-- A slot is written that has no smaller weight than the old one, and a quantum if it is registered.
write-Inv :
    (s : StrategyScheduler) (i : ℕ) (x : Slot)
    → SchedulerInv s
    → i < length s.slots
    → weight s i ≤ slot_weight x
    → (x.registered ≡ true → 0 < x.quantum)
    → SchedulerInv (write_slot s i x)
write-Inv s i x v h more q = record {
  inside = omega (arith, length-set s.slots i x, v.inside);
  within_quantum = omega (arith, v.within_quantum, grown s.cursor);
  quanta = λ j r. elim (Bool-cases (i == j)) [
    | inl e ↦
        let same : i ≡ j = ground arith in
        let self = ap (λ k. slot_at (write_slot s i x) k) (sym same) ∙ slot_at-write_self s i x h in
        rw self (q (ap (λ slot. slot.registered) (sym self) ∙ r))
    | inr e ↦
        let other = slot_at-write_ne s i j x (ground arith) in
        rw other (v.quanta j (ap (λ slot. slot.registered) (sym other) ∙ r))
  ];
}
  where
    grown : (j : ℕ) → weight s j ≤ weight (write_slot s i x) j
    grown j = elim (Bool-cases (i == j)) [
      | inl e ↦
          let same : i ≡ j = ground arith in
          omega (
            arith,
            ap (weight s) same,
            ap (weight (write_slot s i x)) same,
            weight-write_self s i x h,
          )
      | inr e ↦ omega (arith, weight-write_ne s i j x (ground arith))
    ]

slot_of-lt : (ss : List Slot) (id i : ℕ) → slot_of ss id ≡ some i → i < length ss
unfolding slot_of
slot_of-lt [] id i h = absurd (grind arith)
slot_of-lt (s ∷ ss) id i h = elim (Bool-cases (s.registered && s.id == id)) [
  | inl c ↦ let first : i ≡ 0 = grind arith in omega arith
  | inr c ↦ elim (Option-cases (slot_of ss id)) [
    | inl e ↦ absurd (grind arith)
    | inr (j, e) ↦ let later : i ≡ suc j = grind arith in omega (arith, slot_of-lt ss id j e)
  ]
]

free_slot-lt :
    (ss : List Slot) (i : ℕ) (d : Slot)
    → free_slot ss ≡ some i
    → (i < length ss) × ((get_or ss i d).registered ≡ false)
unfolding free_slot
free_slot-lt [] i d h = absurd (grind arith)
free_slot-lt (s ∷ ss) i d h = elim (Bool-cases (not s.registered)) [
  | inl c ↦ let first : i ≡ 0 = grind arith in rw first (omega arith, ground arith)
  | inr c ↦ elim (Option-cases (free_slot ss)) [
    | inl e ↦ absurd (grind arith)
    | inr (j, e) ↦
        let later : i ≡ suc j = grind arith in
        let (small, free) = free_slot-lt ss j d e in rw later (omega arith, free)
  ]
]

pub register_strategy-Inv :
    (s : StrategyScheduler) (id quantum : ℕ)
    → SchedulerInv s
    → SchedulerInv (register_strategy s id quantum).1
unfolding register_strategy weight
register_strategy-Inv s id quantum v = elim (Bool-cases (quantum == 0)) [
  | inl z ↦ rw z v
  | inr z ↦ elim (Option-cases (slot_of s.slots id)) [
    | inr (i, e) ↦ rw (z, register_strategy, e) v
    | inl e ↦ elim (Option-cases (free_slot s.slots)) [
      | inl f ↦ rw (z, register_strategy, e, f) v
      | inr (i, f) ↦
          let (small, free) = free_slot-lt s.slots i (empty_slot s.queue_capacity) f in
          rw (z, register_strategy, e, f)
            (write-Inv s i _ v small (rw free (omega arith)) (λ _. ground arith))
    ]
  ]
]

pub enqueue-Inv :
    (s : StrategyScheduler) (id venue : ℕ) (side : Side) (request : PendingRequest)
    → SchedulerInv s
    → SchedulerInv (enqueue s id venue side request).1
unfolding enqueue weight
enqueue-Inv s id venue side request v = elim (Option-cases (slot_of s.slots id)) [
  | inl e ↦ rw (enqueue, e) v
  | inr (i, e) ↦
      let small = slot_of-lt s.slots id i e in
      elim (Bool-cases (leb s.queue_capacity (slot_at s i).count)) [
        | inl f ↦ rw (enqueue, e, f) (write-Inv s i _ v small (omega arith) (v.quanta i))
        | inr f ↦ rw (enqueue, e, f) (write-Inv s i _ v small (omega arith) (v.quanta i))
      ]
]

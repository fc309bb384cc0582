-- ===== src/Oms/Scheduler/Fair.antt =====
-- No strategy starves: the wait of an active strategy is bounded by the quanta of the others.
use native.Mathlib.Nat.{mod-add-mod, mod-eq_of_lt, add-mod_right}
use market_microstructure_en.Base.{
  ℕ, zero, suc, ◌+◌, ◌-◌, ◌%◌, ◌≤◌, ◌<◌, ◌≡◌, refl, sym, ap, ◌∙◌, arith, true, false, ◌==◌, leb,
  List, [], ◌∷◌, some, length, get_or, Bool-cases, inl, inr,
}
use market_microstructure_en.Oms.Scheduler.{
  Slot, empty_slot, StrategyScheduler, slot_at, active, active_count, next_request, no_arbitrated,
}
use market_microstructure_en.Oms.Scheduler.Wait.{
  weight, between, others, SchedulerInv, wait, credit-le-weight, front, Progress, scan-Progress,
}

no_active :
    (slots : List Slot) (i : ℕ) (d : Slot)
    → active d ≡ false
    → active_count slots ≡ 0
    → active (get_or slots i d) ≡ false
unfolding active_count
no_active [] i d h e = h
no_active (s ∷ ss) zero d h e = ground arith
no_active (s ∷ ss) (suc i) d h e = no_active ss i d h (ground arith)

empty-active : (n : ℕ) → active (empty_slot n) ≡ false
unfolding active
empty-active n = refl

next-Progress :
    (s : StrategyScheduler) (i d : ℕ)
    → SchedulerInv s
    → active (slot_at s i) ≡ true
    → (s.cursor + d) % length s.slots ≡ i
    → d < length s.slots
    → Progress s i d (next_request s)
unfolding next_request
next-Progress s i d v on ahead turn = elim (Bool-cases (active_count s.slots == 0)) [
  | inl e ↦
      let idle =
        no_active s.slots i (empty_slot s.queue_capacity) (empty-active s.queue_capacity)
          (ground arith) in
      absurd (cc)
  | inr e ↦ rw e (scan-Progress (length s.slots) s i d v on ahead turn turn)
]

-- The scheduler after `k` calls of `next`.
unfoldable pub next_times : ℕ → StrategyScheduler → StrategyScheduler
next_times zero s = s
next_times (suc k) s = next_times k (next_request s).1

within :
    (n : ℕ) (s : StrategyScheduler) (i d : ℕ)
    → SchedulerInv s
    → active (slot_at s i) ≡ true
    → (s.cursor + d) % length s.slots ≡ i
    → d < length s.slots
    → wait s d ≤ n
    → (k : ℕ) × (k ≤ n) × ((next_request (next_times k s)).0 ≡ some (front s i))
unfolding next_times Progress front
within zero s i d v on ahead turn h = elim (next-Progress s i d v on ahead turn) [
  | inl e ↦ (0, omega arith, e)
  | inr (d', near) ↦ absurd (omega (arith, near.near_wait))
]
within (suc n) s i d v on ahead turn h = elim (next-Progress s i d v on ahead turn) [
  | inl e ↦ (0, omega arith, e)
  | inr (d', near) ↦
      let (k, less, e) =
        within n (next_request s).1 i d' near.near_Inv (ap active near.near_slot ∙ on)
          near.near_ahead near.near_turn (omega (arith, near.near_wait)) in
      (
        suc k,
        omega arith,
        e ∙ ap (λ slot. some (get_or slot.requests slot.head no_arbitrated)) near.near_slot,
      )
]

-- The place of a slot, counted from the cursor.
distance : (n c i : ℕ) → c < n → i < n → (d : ℕ) × (d < n) × ((c + d) % n ≡ i)
distance n c i hc hi = elim (Bool-cases (leb c i)) [
  | inl e ↦ (i - c, ground arith, ap (λ x. x % n) (the_sum (ground arith)) ∙ mod-eq_of_lt hi)
  | inr e ↦ (
    i + n - c,
    ground arith,
    ap (λ x. x % n) (around (ground arith)) ∙ add-mod_right i n ∙ mod-eq_of_lt hi,
  )
]
  where
    the_sum : c ≤ i → c + (i - c) ≡ i
    the_sum h = omega arith

    around : i < c → c + (i + n - c) ≡ i + n
    around h = omega arith

between-split :
    (s : StrategyScheduler) (c e d : ℕ)
    → between s (c % length s.slots) (e + d)
      ≡ between s (c % length s.slots) e + between s ((c + e) % length s.slots) d
unfolding between
between-split s c zero d =
    ap (λ x. between s (c % length s.slots) x) (zero_add d)
    ∙ ap (λ x. between s (x % length s.slots) d) (sym (add_zero c))
    ∙ sym (zero_add _)
  where
    zero_add : (d : ℕ) → 0 + d ≡ d
    zero_add d = omega arith

    add_zero : (c : ℕ) → c + 0 ≡ c
    add_zero c = omega arith
between-split s c (suc e) d =
    ap (λ x. between s (c % length s.slots) x) (suc_add e d)
    ∙ rw (mod-add-mod c (length s.slots) 1)
        (ap (λ x. weight s (c % length s.slots) + x) (between-split s (c + 1) e d) ∙ regroup)
  where
    suc_add : (e d : ℕ) → suc e + d ≡ suc (e + d)
    suc_add e d = omega arith

    the_sum : (c e : ℕ) → c + 1 + e ≡ c + suc e
    the_sum c e = omega arith

    regroup :
        weight s (c % length s.slots)
          + (between s ((c + 1) % length s.slots) e + between s ((c + 1 + e) % length s.slots) d)
        ≡ weight s (c % length s.slots)
          + between s ((c + 1) % length s.slots) e
          + between s ((c + suc e) % length s.slots) d
    regroup =
        ap
          (λ x.
            weight s (c % length s.slots)
            + (between s ((c + 1) % length s.slots) e + between s (x % length s.slots) d))
          (the_sum c e)
        ∙ omega arith

between-le-others :
    (s : StrategyScheduler) (c d i : ℕ)
    → c < length s.slots
    → d < length s.slots
    → (c + d) % length s.slots ≡ i
    → between s c d ≤ others s i
between-le-others s c d i hc hd ahead = omega (arith, all, ap (λ x. between s x d) back)
  where
    n : ℕ
    n = length s.slots

    parts : n - 1 - d + d ≡ n - 1
    parts = omega arith

    all : others s i ≡ between s ((i + 1) % n) (n - 1 - d) + between s ((i + 1 + (n - 1 - d)) % n) d
    all = ap (λ x. between s ((i + 1) % n) x) (sym parts) ∙ between-split s (i + 1) (n - 1 - d) d

    the_sum : (i : ℕ) → i + 1 + (n - 1 - d) ≡ i + (n - d)
    the_sum i = omega arith

    whole : c + d + (n - d) ≡ c + n
    whole = omega arith

    back : (i + 1 + (n - 1 - d)) % n ≡ c
    back =
        ap (λ x. x % n) (the_sum i)
        ∙ ap (λ x. (x + (n - d)) % n) (sym ahead)
        ∙ mod-add-mod (c + d) n (n - d)
        ∙ ap (λ x. x % n) whole
        ∙ add-mod_right c n
        ∙ mod-eq_of_lt hc

wait-le-between : (s : StrategyScheduler) (d : ℕ) → SchedulerInv s → wait s d ≤ between s s.cursor d
unfolding wait between
wait-le-between s zero v = omega arith
wait-le-between s (suc d) v = omega (arith, credit-le-weight s v)

-- A strategy with a request pending is not starved: after at most as many requests of others as their
-- quanta sum up to, `next` hands out the request at the front of its queue.
pub next-fair :
    (s : StrategyScheduler) (i : ℕ)
    → SchedulerInv s
    → i < length s.slots
    → active (slot_at s i) ≡ true
    → (k : ℕ) × (k ≤ others s i) × ((next_request (next_times k s)).0 ≡ some (front s i))
next-fair s i v h on =
    let (d, turn, ahead) = distance (length s.slots) s.cursor i v.inside h in
    within (others s i) s i d v on ahead turn
      (omega (arith, wait-le-between s d v, between-le-others s s.cursor d i v.inside turn ahead))

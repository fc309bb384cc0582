-- ===== src/Oms/Scheduler/Wait.antt =====
-- How long a strategy waits: each request that goes to another strategy makes the wait shorter.
use native.Mathlib.Nat.{mod-lt, mod-eq_of_lt, mod-add-mod}
use market_microstructure_en.Base.{
  ℕ, zero, suc, ◌+◌, ◌-◌, ◌%◌, ◌≤◌, ◌<◌, ◌≡◌, ◌≢◌, refl, sym, ap, ◌∙◌, arith, true, false, ◌||◌,
  ◌==◌, if◌then◌else◌, Option, some, length, get_or, length-set, get_or-set_self, get_or-set_ne,
  Bool-cases, both_false, ◌⊎◌, inl, inr,
}
use market_microstructure_en.Base.Int.{
  pos, ◌≤ℤ◌, leb_ℤ, pos_part, -ℤ_parts, eq_of_parts, parts_of_eq, pos_nonneg,
}
use market_microstructure_en.Base.Window.{mod-ne}
use market_microstructure_en.Oms.Scheduler.{
  Slot, empty_slot, StrategyScheduler, slot_at, write_slot, active, advance, served, visit_credit,
  serve, pass_over, scan, ArbitratedRequest, no_arbitrated,
}

-- The quantum of a registered slot, 0 for a free one.
unfoldable pub weight : StrategyScheduler → ℕ → ℕ
weight s j = if (slot_at s j).registered then (slot_at s j).quantum else 0

-- The weights of `d` slots from a place on, in the order of the cursor.
unfoldable pub between : StrategyScheduler → ℕ → ℕ → ℕ
between s c zero = 0
between s c (suc d) = weight s c + between s ((c + 1) % length s.slots) d

-- The sum of the quanta of all strategies but the one in slot `i`.
abbrev pub others : StrategyScheduler → ℕ → ℕ
others s i = between s ((i + 1) % length s.slots) (length s.slots - 1)

pub record SchedulerInv (s : StrategyScheduler) : Type 0 where
  pub inside : s.cursor < length s.slots
  pub within_quantum : s.visit_deficit ≤ℤ pos (weight s s.cursor)
  pub quanta : (j : ℕ) → (slot_at s j).registered ≡ true → 0 < (slot_at s j).quantum

-- What is left of the visit at the cursor.
unfoldable pub credit : StrategyScheduler → ℕ
credit s = if leb_ℤ s.visit_deficit (pos 0) then weight s s.cursor else pos_part s.visit_deficit

-- The requests that go out before the slot `d` places behind the cursor has its turn, at most.
unfoldable pub wait : StrategyScheduler → ℕ → ℕ
wait s zero = 0
wait s (suc d) = credit s + between s ((s.cursor + 1) % length s.slots) d

-- A change that leaves the registered strategies and their quanta.
pub record SameStrategies (t s : StrategyScheduler) : Type 0 where
  pub same_size : length t.slots ≡ length s.slots
  pub same_registered : (j : ℕ) → (slot_at t j).registered ≡ (slot_at s j).registered
  pub same_quantum : (j : ℕ) → (slot_at t j).quantum ≡ (slot_at s j).quantum

pub weight-Same : (t s : StrategyScheduler) (j : ℕ) → SameStrategies t s → weight t j ≡ weight s j
unfolding weight
weight-Same t s j h = rw (h.same_registered j, h.same_quantum j) refl

pub between-Same :
    (t s : StrategyScheduler) (c d : ℕ) → SameStrategies t s → between t c d ≡ between s c d
unfolding between
between-Same t s c zero h = refl
between-Same t s c (suc d) h =
    rw (h.same_size, weight-Same t s c h)
      (ap (λ x. weight s c + x) (between-Same t s ((c + 1) % length s.slots) d h))

-- `slot_at` behind a write.
pub slot_at-write_self :
    (s : StrategyScheduler) (i : ℕ) (x : Slot)
    → i < length s.slots
    → slot_at (write_slot s i x) i ≡ x
slot_at-write_self s i x h = get_or-set_self s.slots i x (empty_slot s.queue_capacity) h

pub slot_at-write_ne :
    (s : StrategyScheduler) (i j : ℕ) (x : Slot)
    → i ≢ j
    → slot_at (write_slot s i x) j ≡ slot_at s j
slot_at-write_ne s i j x h = get_or-set_ne s.slots i j x (empty_slot s.queue_capacity) h

write-Same :
    (s : StrategyScheduler) (i : ℕ) (x : Slot)
    → i < length s.slots
    → x.registered ≡ (slot_at s i).registered
    → x.quantum ≡ (slot_at s i).quantum
    → SameStrategies (write_slot s i x) s
write-Same s i x h er eq = record {
  same_size = length-set s.slots i x;
  same_registered = λ j. at j (λ slot. slot.registered) er;
  same_quantum = λ j. at j (λ slot. slot.quantum) eq;
}
  where
    at :
        {A : Type 0} (j : ℕ) (field : Slot → A)
        → field x ≡ field (slot_at s i)
        → field (slot_at (write_slot s i x) j) ≡ field (slot_at s j)
    at j field e = elim (Bool-cases (i == j)) [
      | inl q ↦
          let same : i ≡ j = ground arith in rw (← same) (ap field (slot_at-write_self s i x h) ∙ e)
      | inr q ↦ ap field (slot_at-write_ne s i j x (ground arith))
    ]

-- Two slots that the cursor passes in less than one turn are different.
ahead-ne : (n c d : ℕ) → c < n → suc d < n → c ≢ (c + suc d) % n
ahead-ne n c d h k e = mod-ne c (c + suc d) n (omega arith) (omega arith) (mod-eq_of_lt h ∙ e)

ahead_other :
    (s : StrategyScheduler) (i d : ℕ)
    → SchedulerInv s
    → (s.cursor + suc d) % length s.slots ≡ i
    → suc d < length s.slots
    → s.cursor ≢ i
ahead_other s i d v ahead turn e =
    ahead-ne (length s.slots) s.cursor d v.inside turn (e ∙ sym ahead)

-- The state after the cursor leaves a slot, whatever was written there.
record Left (s t : StrategyScheduler) : Type 0 where
  left_same : SameStrategies t s
  left_cursor : t.cursor ≡ (s.cursor + 1) % length s.slots
  left_visit : t.visit_deficit ≡ pos 0
  left_others : (j : ℕ) → s.cursor ≢ j → slot_at t j ≡ slot_at s j

credit_fresh : (t : StrategyScheduler) → t.visit_deficit ≡ pos 0 → credit t ≡ weight t t.cursor
unfolding credit
credit_fresh t h = simp h

wait_fresh :
    (t : StrategyScheduler) (d : ℕ) → t.visit_deficit ≡ pos 0 → wait t d ≡ between t t.cursor d
unfolding wait between
wait_fresh t zero h = refl
wait_fresh t (suc d) h =
    ap (λ x. x + between t ((t.cursor + 1) % length t.slots) d) (credit_fresh t h)

Left-Inv : (s t : StrategyScheduler) → SchedulerInv s → Left s t → SchedulerInv t
Left-Inv s t v l = record {
  inside =
      rw (l.left_cursor, l.left_same.same_size) (mod-lt (s.cursor + 1) (omega (arith, v.inside)));
  within_quantum = rw l.left_visit (omega arith);
  quanta =
      λ j r. rw (l.left_same.same_quantum j) (v.quanta j (sym (l.left_same.same_registered j) ∙ r));
}

Left-wait :
    (s t : StrategyScheduler) (d : ℕ)
    → Left s t
    → wait t d ≡ between s ((s.cursor + 1) % length s.slots) d
Left-wait s t d l =
    wait_fresh t d l.left_visit
    ∙ between-Same t s t.cursor d l.left_same
    ∙ ap (λ c. between s c d) l.left_cursor

Left-ahead :
    (s t : StrategyScheduler) (d : ℕ)
    → Left s t
    → (t.cursor + d) % length t.slots ≡ (s.cursor + suc d) % length s.slots
Left-ahead s t d l =
    rw (l.left_cursor, l.left_same.same_size)
      (mod-add-mod (s.cursor + 1) (length s.slots) d ∙ ap (λ x. x % length s.slots) (omega arith))

pass_over-Left : (s : StrategyScheduler) → SchedulerInv s → Left s (pass_over s)
unfolding pass_over advance
pass_over-Left s v =
    let same =
      write-Same s s.cursor (record (slot_at s s.cursor) { deficit = pos 0 }) v.inside refl refl in
    record {
      left_same = record {
        same_size = same.same_size;
        same_registered = same.same_registered;
        same_quantum = same.same_quantum;
      };
      left_cursor = rw same.same_size refl;
      left_visit = refl;
      left_others = λ j h. slot_at-write_ne s s.cursor j _ h;
    }

-- What is known of an answer: the front request of slot `i`, or another request and a shorter wait.
pub record Nearer (s : StrategyScheduler) (i d : ℕ) (t : StrategyScheduler) (d' : ℕ) : Type 0 where
  pub near_Inv : SchedulerInv t
  pub near_same : SameStrategies t s
  pub near_ahead : (t.cursor + d') % length t.slots ≡ i
  pub near_turn : d' < length t.slots
  pub near_slot : slot_at t i ≡ slot_at s i
  pub near_wait : wait t d' < wait s d

-- The request at the front of a slot.
unfoldable pub front : StrategyScheduler → ℕ → ArbitratedRequest
front s i = get_or (slot_at s i).requests (slot_at s i).head no_arbitrated

unfoldable pub Progress :
    StrategyScheduler → ℕ → ℕ → Option ArbitratedRequest × StrategyScheduler → Type 0
Progress s i d (out, t) = (out ≡ some (front s i)) ⊎ ((d' : ℕ) × Nearer s i d t d')

-- The slot that `served` writes has the strategy and quantum of the old one.
served-Same : (s : StrategyScheduler) → SchedulerInv s → SameStrategies (served s) s
unfolding served
served-Same s v =
    let same = write-Same s s.cursor _ v.inside (ground arith) (ground arith) in
    record {
      same_size = same.same_size;
      same_registered = same.same_registered;
      same_quantum = same.same_quantum;
    }

served_others : (s : StrategyScheduler) (j : ℕ) → s.cursor ≢ j → slot_at (served s) j ≡ slot_at s j
unfolding served
served_others s j h = slot_at-write_ne s s.cursor j _ h

active-registered : (slot : Slot) → active slot ≡ true → slot.registered ≡ true
unfolding active
active-registered slot h = grind arith

visit_credit-credit :
    (s : StrategyScheduler)
    → SchedulerInv s
    → active (slot_at s s.cursor) ≡ true
    → (visit_credit s ≡ pos (credit s)) × (0 < credit s)
unfolding visit_credit credit weight
visit_credit-credit s v on =
    let r = active-registered (slot_at s s.cursor) on in
    let q = v.quanta s.cursor r in
    elim (Bool-cases (leb_ℤ s.visit_deficit (pos 0))) [
      | inl e ↦ rw (e, r) (refl, q)
      | inr e ↦ rw e (sym (pos_nonneg s.visit_deficit (ground arith)), ground arith)
    ]

served_left :
    (s : StrategyScheduler)
    → SchedulerInv s
    → active (slot_at s s.cursor) ≡ true
    → (served s).visit_deficit ≡ pos (credit s - 1)
unfolding served
served_left s v on =
    let (e, h) = visit_credit-credit s v on in
    rw e (eq_of_parts _ _ (omega (arith, -ℤ_parts (pos (credit s)) (pos 1))))

-- The wait of the first slot behind a visit that goes on.
served-credit :
    (s : StrategyScheduler)
    → SchedulerInv s
    → active (slot_at s s.cursor) ≡ true
    → leb_ℤ (served s).visit_deficit (pos 0) ≡ false
    → credit (served s) ≡ credit s - 1
unfolding credit
served-credit s v on h = rw h (ap pos_part (served_left s v on))

advance-served-Left : (s : StrategyScheduler) → SchedulerInv s → Left s (advance (served s))
unfolding advance served
advance-served-Left s v =
    let same = served-Same s v in
    record {
      left_same = record {
        same_size = same.same_size;
        same_registered = same.same_registered;
        same_quantum = same.same_quantum;
      };
      left_cursor = ap (λ n. (s.cursor + 1) % n) same.same_size;
      left_visit = refl;
      left_others = served_others s;
    }

-- Leaving a visited slot with credit brings slot `i` nearer.
Left-Nearer :
    (s t : StrategyScheduler) (i d : ℕ)
    → SchedulerInv s
    → Left s t
    → 0 < credit s
    → (s.cursor + suc d) % length s.slots ≡ i
    → suc d < length s.slots
    → Nearer s i (suc d) t d
unfolding wait
Left-Nearer s t i d v l some_left ahead turn = record {
  near_Inv = Left-Inv s t v l;
  near_same = l.left_same;
  near_ahead = Left-ahead s t d l ∙ ahead;
  near_turn = omega (arith, l.left_same.same_size);
  near_slot = l.left_others i (ahead_other s i d v ahead turn);
  near_wait = omega (arith, Left-wait s t d l);
}

pub credit-le-weight : (s : StrategyScheduler) → SchedulerInv s → credit s ≤ weight s s.cursor
unfolding credit
credit-le-weight s v = ground (arith, v.within_quantum)

served-wait :
    (s : StrategyScheduler) (d : ℕ)
    → SchedulerInv s
    → active (slot_at s s.cursor) ≡ true
    → leb_ℤ (served s).visit_deficit (pos 0) ≡ false
    → wait (served s) (suc d) ≡ credit s - 1 + between s ((s.cursor + 1) % length s.slots) d
unfolding wait
served-wait s d v on more =
    let same = served-Same s v in
    let cursor_same : (served s).cursor ≡ s.cursor = unfold served in refl in
    rw
      (
        served-credit s v on more,
        between-Same (served s) s (((served s).cursor + 1) % length (served s).slots) d same,
        cursor_same,
        same.same_size,
      )
      refl

-- So does a visit that goes on.
served-Nearer :
    (s : StrategyScheduler) (i d : ℕ)
    → SchedulerInv s
    → active (slot_at s s.cursor) ≡ true
    → leb_ℤ (served s).visit_deficit (pos 0) ≡ false
    → (s.cursor + suc d) % length s.slots ≡ i
    → suc d < length s.slots
    → Nearer s i (suc d) (served s) (suc d)
served-Nearer s i d v on more ahead turn =
    let same = served-Same s v in
    let (_, some_left) = visit_credit-credit s v on in
    let cursor_same : (served s).cursor ≡ s.cursor = unfold served in refl in
    record {
      near_Inv = record {
        inside = rw (cursor_same, same.same_size) v.inside;
        within_quantum = omega (
          arith,
          parts_of_eq (served_left s v on),
          weight-Same (served s) s (served s).cursor same,
          ap (weight s) cursor_same,
          credit-le-weight s v,
        );
        quanta = λ j r. rw (same.same_quantum j) (v.quanta j (sym (same.same_registered j) ∙ r));
      };
      near_same = same;
      near_ahead = rw (cursor_same, same.same_size) ahead;
      near_turn = rw same.same_size turn;
      near_slot = served_others s i (ahead_other s i d v ahead turn);
      near_wait = unfold wait in omega (arith, served-wait s d v on more, some_left);
    }

-- Serving another slot brings slot `i` nearer.
serve-Nearer :
    (s : StrategyScheduler) (i d : ℕ)
    → SchedulerInv s
    → active (slot_at s s.cursor) ≡ true
    → (s.cursor + suc d) % length s.slots ≡ i
    → suc d < length s.slots
    → (d' : ℕ) × Nearer s i (suc d) (serve s).1 d'
unfolding serve
serve-Nearer s i d v on ahead turn =
    elim (Bool-cases
      ((slot_at s s.cursor).count - 1 == 0 || leb_ℤ (served s).visit_deficit (pos 0))) [
        | inl e ↦ (
          d,
          rw e (
              Left-Nearer s (advance (served s)) i d v (advance-served-Left s v)
                (visit_credit-credit s v on).1 ahead turn),
        )
        | inr e ↦ (suc d, rw e (served-Nearer s i d v on (both_false _ _ e).1 ahead turn))
      ]

Nearer-passed :
    (s t : StrategyScheduler) (i d d' : ℕ)
    → SchedulerInv s
    → (s.cursor + suc d) % length s.slots ≡ i
    → suc d < length s.slots
    → Nearer (pass_over s) i d t d'
    → Nearer s i (suc d) t d'
unfolding wait
Nearer-passed s t i d d' v ahead turn n =
    let l = pass_over-Left s v in
    record {
      near_Inv = n.near_Inv;
      near_same = record {
        same_size = n.near_same.same_size ∙ l.left_same.same_size;
        same_registered = λ j. n.near_same.same_registered j ∙ l.left_same.same_registered j;
        same_quantum = λ j. n.near_same.same_quantum j ∙ l.left_same.same_quantum j;
      };
      near_ahead = n.near_ahead;
      near_turn = n.near_turn;
      near_slot = n.near_slot ∙ l.left_others i (ahead_other s i d v ahead turn);
      near_wait = omega (arith, n.near_wait, Left-wait s (pass_over s) d l);
    }

Progress-passed :
    (s : StrategyScheduler) (i d : ℕ) (r : Option ArbitratedRequest × StrategyScheduler)
    → SchedulerInv s
    → (s.cursor + suc d) % length s.slots ≡ i
    → suc d < length s.slots
    → Progress (pass_over s) i d r
    → Progress s i (suc d) r
unfolding Progress front
Progress-passed s i d (out, t) v ahead turn (inl e) =
    let l = pass_over-Left s v in
    inl (
      e
      ∙ ap (λ slot. some (get_or slot.requests slot.head no_arbitrated))
          (l.left_others i (ahead_other s i d v ahead turn)))
Progress-passed s i d (out, t) v ahead turn (inr (d', n)) =
    inr (d', Nearer-passed s t i d d' v ahead turn n)

pub scan-Progress :
    (scans : ℕ) (s : StrategyScheduler) (i d : ℕ)
    → SchedulerInv s
    → active (slot_at s i) ≡ true
    → (s.cursor + d) % length s.slots ≡ i
    → d < length s.slots
    → d < scans
    → Progress s i d (scan scans s)
unfolding scan Progress front
scan-Progress zero s i d v on ahead turn fuel = absurd (omega arith)
scan-Progress (suc scans) s i zero v on ahead turn fuel =
    let here : s.cursor ≡ i =
      sym (mod-eq_of_lt v.inside) ∙ ap (λ x. x % length s.slots) (omega arith) ∙ ahead in
    let there : active (slot_at s s.cursor) ≡ true = rw here on in
    rw there (inl (unfold serve in rw here refl))
scan-Progress (suc scans) s i (suc d) v on ahead turn fuel =
    elim (Bool-cases (active (slot_at s s.cursor))) [
      | inl there ↦ rw there (inr (serve-Nearer s i d v there ahead turn))
      | inr idle ↦
          let l = pass_over-Left s v in
          rw idle (
            Progress-passed s i d (scan scans (pass_over s)) v ahead turn (
              scan-Progress scans (pass_over s) i d (Left-Inv s (pass_over s) v l)
                (ap active (l.left_others i (ahead_other s i d v ahead turn)) ∙ on)
                (Left-ahead s (pass_over s) d l ∙ ahead) (omega (arith, l.left_same.same_size))
                (omega arith)))
    ]

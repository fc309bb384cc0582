-- ===== src/Oms/Report/Pool.antt =====
-- The pool of held reports: what goes in comes out, and its counter is the number of held reports.
use mathlib.Core.Bool.{true≢false}
use market_microstructure_en.Base.{
  ℕ, zero, suc, ◌+◌, ◌-◌, ◌<◌, ◌≡◌, refl, sym, arith, ◌&&◌, true, false, if◌then◌else◌, List, [],
  ◌∷◌, Bool-cases, inl, inr, ◌⊎◌, none, some, replicate, All,
}
use market_microstructure_en.Exec.Types.{BrokerOrderRef, ref_eq, ref_eq_iff}
use market_microstructure_en.Oms.Report.{
  ExecReport, Slot, empty_slot, GapPool, make_pool, hold_slots, hold, matches, take_slots,
  take_report, discard_slots, discard_all_for,
}

-- The number of occupied slots.
unfoldable pub occupied_count : List Slot → ℕ
occupied_count [] = 0
occupied_count (x ∷ xs) = (if x.occupied then 1 else 0) + occupied_count xs

-- The counter of the pool is right.
abbrev pub Counted : GapPool → Type 0
Counted pool = pool.held_count ≡ occupied_count pool.slots

-- No held report has sequence number 0, where the 64-bit numbers would start again.
abbrev pub Numbered : Slot → Type 0
Numbered x = (x.occupied ≡ true) → 0 < x.report.venue_seq

count-replicate : (n : ℕ) → occupied_count (replicate n empty_slot) ≡ 0
unfolding occupied_count
count-replicate zero = refl
count-replicate (suc n) = rw (count-replicate n)

replicate-Numbered : (n : ℕ) → All Numbered (replicate n empty_slot)
replicate-Numbered zero = tt
replicate-Numbered (suc n) = ((λ h. absurd (true≢false (sym h))), replicate-Numbered n)

-- The counter is right and the numbers are positive.
pub record PoolInv (pool : GapPool) : Type 0 where
  pub counted : Counted pool
  pub numbered : All Numbered pool.slots

pub make_pool-Inv : (capacity : ℕ) → PoolInv (make_pool capacity)
unfolding make_pool
make_pool-Inv capacity = record {
  counted = sym (count-replicate capacity);
  numbered = replicate-Numbered capacity;
}

hold_slots_cases :
    (xs : List Slot) (report : ExecReport)
    → (hold_slots xs report ≡ none)
      ⊎ ((ys : List Slot) × (hold_slots xs report ≡ some ys)
          × (occupied_count ys ≡ suc (occupied_count xs))
          × (0 < report.venue_seq → All Numbered xs → All Numbered ys))
unfolding hold_slots occupied_count
hold_slots_cases [] report = inl refl
hold_slots_cases (x ∷ xs) report = elim (Bool-cases x.occupied) [
  | inr e ↦ inr (
    record { occupied = true; report = report } ∷ xs,
    rw (e, hold_slots),
    rw e (omega arith),
    λ h a. ((λ _. h), a.1),
  )
  | inl e ↦ elim (hold_slots_cases xs report) [
    | inl q ↦ inl (simp (e, q))
    | inr (ys, q, n, k) ↦ inr (x ∷ ys, simp (e, q), omega (arith, n), λ h a. (a.0, k h a.1))
  ]
]

-- `hold` keeps the invariant, whether it finds a place or not.
pub hold-Inv :
    (pool : GapPool) (report : ExecReport)
    → 0 < report.venue_seq
    → PoolInv pool
    → PoolInv (hold pool report).1
unfolding hold
hold-Inv pool report h v = elim (hold_slots_cases pool.slots report) [
  | inl q ↦ rw (q, hold) v
  | inr (ys, q, n, k) ↦
      rw (q, hold) (record { counted = omega (arith, v.counted, n); numbered = k h v.numbered })
]

-- What `take` finds: a held report of this reference and number, which leaves the pool.
pub take_slots_cases :
    (xs : List Slot) (ref : BrokerOrderRef) (seq : ℕ)
    → (take_slots xs ref seq ≡ none)
      ⊎ ((report : ExecReport) × (ys : List Slot) × (take_slots xs ref seq ≡ some (report, ys))
          × (report.ref ≡ ref)
          × (report.venue_seq ≡ seq)
          × (occupied_count xs ≡ suc (occupied_count ys))
          × (All Numbered xs → All Numbered ys × (0 < seq)))
unfolding take_slots occupied_count matches
take_slots_cases [] ref seq = inl refl
take_slots_cases (x ∷ xs) ref seq = elim (Bool-cases (matches ref seq x)) [
  | inl e ↦
      let held : x.occupied ≡ true = ground arith in
      let same : ref_eq x.report.ref ref ≡ true = ground arith in
      let number : x.report.venue_seq ≡ seq = ground arith in
      inr (
        x.report,
        record x { occupied = false } ∷ xs,
        rw e,
        (ref_eq_iff x.report.ref ref).0 same,
        number,
        rw held (omega arith),
        λ a. (((λ q. absurd (true≢false (sym q))), a.1), omega (arith, number, a.0 held)),
      )
  | inr e ↦ elim (take_slots_cases xs ref seq) [
    | inl q ↦ inl (rw (e, q))
    | inr (report, ys, q, k, number, n, a) ↦
        inr (
          report,
          x ∷ ys,
          rw (e, q),
          k,
          number,
          omega (arith, n),
          λ b. ((b.0, (a b.1).0), (a b.1).1),
        )
  ]
]

pub take_report_cases :
    (pool : GapPool) (ref : BrokerOrderRef) (seq : ℕ)
    → PoolInv pool
    → (take_report pool ref seq ≡ none)
      ⊎ ((report : ExecReport) × (rest : GapPool) × (take_report pool ref seq ≡ some (report, rest))
          × (report.ref ≡ ref)
          × (report.venue_seq ≡ seq)
          × (0 < seq)
          × (pool.held_count ≡ suc rest.held_count)
          × PoolInv rest)
unfolding take_report
take_report_cases pool ref seq v = elim (take_slots_cases pool.slots ref seq) [
  | inl q ↦ inl (rw (q, take_report))
  | inr (report, ys, q, k, number, n, a) ↦ inr (
    report,
    record { slots = ys; held_count = pool.held_count - 1 },
    rw (q, take_report),
    k,
    number,
    (a v.numbered).1,
    omega (arith, n, v.counted),
    record { counted = omega (arith, n, v.counted); numbered = (a v.numbered).0 },
  )
]

discard_slots_lem :
    (ref : BrokerOrderRef) (xs : List Slot) (held extra : ℕ)
    → held ≡ occupied_count xs + extra
    → All Numbered xs
    → ((discard_slots ref xs held).1 ≡ occupied_count (discard_slots ref xs held).0 + extra)
      × All Numbered (discard_slots ref xs held).0
unfolding discard_slots occupied_count
discard_slots_lem ref [] held extra h a = (h, tt)
discard_slots_lem ref (x ∷ xs) held extra h a =
    elim (Bool-cases (x.occupied && ref_eq x.report.ref ref)) [
      | inl e ↦
          let one : x.occupied ≡ true = ground arith in
          let less : held - 1 ≡ occupied_count xs + extra = omega (arith, rw one at h) in
          let (n, b) = discard_slots_lem ref xs (held - 1) extra less a.1 in
          rw e (omega (arith, n), ((λ q. absurd (true≢false (sym q))), b))
      | inr e ↦
          let (n, b) =
            discard_slots_lem ref xs held ((if x.occupied then 1 else 0) + extra) (omega (arith, h))
              a.1 in
          simp e (omega (arith, n), (a.0, b))
    ]

-- `discard_all_for` keeps the invariant.
pub discard_all_for-Inv :
    (pool : GapPool) (ref : BrokerOrderRef) → PoolInv pool → PoolInv (discard_all_for pool ref)
unfolding discard_all_for
discard_all_for-Inv pool ref v =
    let (n, a) =
      discard_slots_lem ref pool.slots pool.held_count 0 (omega (arith, v.counted)) v.numbered in
    record { counted = omega (arith, n); numbered = a }

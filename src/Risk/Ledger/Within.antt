-- ===== src/Risk/Ledger/Within.antt =====
-- No reservation takes a dimension over its limit or its credit below zero.
use mathlib.Core.Bool.{true≢false}
use mathlib.Core.Path.{subst}
use market_microstructure_en.Base.{
  ℕ, ◌+◌, set, ◌≡◌, refl, sym, ap, arith, Bool, true, false, ◌||◌, ◌==◌, leb, List, [], ◌∷◌, ◌++◌,
  Bool-cases, inl, inr, ◌⊎◌, Option, none, some, Option-cases, is_some,
}
use market_microstructure_en.Base.Int.{ℤ, pos, ltb_ℤ, leb_ℤ, ◌≤ℤ◌, neg}
use market_microstructure_en.Exec.Types.{BrokerOrderRef, Side}
use market_microstructure_en.Risk.Ledger.{
  Dim, dim_eq, strategy_dim, venue_dim, symbol_dim, global_dim, RiskLedger, limits_of, add_at,
  reserve_exposure, reserve_credit, find_id, max_symbols, unattributed_strategy,
}
use market_microstructure_en.Risk.Ledger.Table.{find_reservation, probe}
use market_microstructure_en.Risk.Ledger.Operations.{
  allocate_reservation, reservation_at, write_reservation, reserve_dims, reserve_for, reserve,
  dims_with,
}
use market_microstructure_en.Risk.Ledger.Undo.{reserve_refused}

-- Every dimension is within its limit of open orders and has credit left.
pub record Within (l : RiskLedger) : Type 0 where
  pub exposure_ok : (d : Dim) → l.open_exposure d ≤ℤ (limits_of l.config d).open_order_limit
  pub credit_ok : (d : Dim) → pos 0 ≤ℤ l.credit_remaining d

dim_eq-eq : (d e : Dim) → dim_eq d e ≡ true → d ≡ e
unfolding dim_eq
dim_eq-eq (strategy_dim i) (strategy_dim j) h = ap strategy_dim (ground arith)
dim_eq-eq (venue_dim i) (venue_dim j) h = ap venue_dim (ground arith)
dim_eq-eq (symbol_dim i) (symbol_dim j) h = ap symbol_dim (ground arith)
dim_eq-eq global_dim global_dim h = refl
dim_eq-eq (strategy_dim i) (venue_dim j) h = absurd (true≢false (sym h))
dim_eq-eq (strategy_dim i) (symbol_dim j) h = absurd (true≢false (sym h))
dim_eq-eq (strategy_dim i) global_dim h = absurd (true≢false (sym h))
dim_eq-eq (venue_dim i) (strategy_dim j) h = absurd (true≢false (sym h))
dim_eq-eq (venue_dim i) (symbol_dim j) h = absurd (true≢false (sym h))
dim_eq-eq (venue_dim i) global_dim h = absurd (true≢false (sym h))
dim_eq-eq (symbol_dim i) (strategy_dim j) h = absurd (true≢false (sym h))
dim_eq-eq (symbol_dim i) (venue_dim j) h = absurd (true≢false (sym h))
dim_eq-eq (symbol_dim i) global_dim h = absurd (true≢false (sym h))
dim_eq-eq global_dim (strategy_dim j) h = absurd (true≢false (sym h))
dim_eq-eq global_dim (venue_dim j) h = absurd (true≢false (sym h))
dim_eq-eq global_dim (symbol_dim j) h = absurd (true≢false (sym h))

add_at-away : (d e : Dim) (v : ℤ) (f : Dim → ℤ) → dim_eq d e ≡ false → add_at d v f e ≡ f e
unfolding add_at
add_at-away d e v f q = rw q

-- A property of a counter that holds after an addition at its own place holds at every place.
add_at-all :
    (P : Dim → ℤ → Type 0) (d : Dim) (v : ℤ) (f : Dim → ℤ)
    → P d (add_at d v f d)
    → ((e : Dim) → P e (f e))
    → (e : Dim) → P e (add_at d v f e)
add_at-all P d v f here old e = elim (Bool-cases (dim_eq d e)) [
  | inl q ↦ subst (λ x. P x (add_at d v f x)) (dim_eq-eq d e q) here
  | inr q ↦ subst (P e) (sym (add_at-away d e v f q)) (old e)
]

reserve_exposure-ok :
    (l : RiskLedger) (done todo : List Dim) (v : ℤ)
    → Within l
    → (reserve_exposure l done todo v).0 ≡ true
    → Within (reserve_exposure l done todo v).1
unfolding reserve_exposure
reserve_exposure-ok l done [] v w = λ _. w
reserve_exposure-ok l done (d ∷ ds) v w =
    let l1 : RiskLedger = record l { open_exposure = add_at d v l.open_exposure } in
    elim (Bool-cases
      (ltb_ℤ (limits_of l.config d).open_order_limit (add_at d v l.open_exposure d))) [
        | inl e ↦ rw e (λ q. absurd (true≢false (sym q)))
        | inr e ↦
            let fits : add_at d v l.open_exposure d ≤ℤ (limits_of l.config d).open_order_limit =
              ground arith in
            rw e (
              reserve_exposure-ok l1 (done ++ (d ∷ [])) ds v (record {
                exposure_ok =
                    add_at-all (λ x n. n ≤ℤ (limits_of l.config x).open_order_limit) d v
                      l.open_exposure fits w.exposure_ok;
                credit_ok = w.credit_ok;
              }))
      ]

reserve_credit-ok :
    (l : RiskLedger) (done todo : List Dim) (v : ℤ)
    → Within l
    → (reserve_credit l done todo v).0 ≡ true
    → Within (reserve_credit l done todo v).1
unfolding reserve_credit
reserve_credit-ok l done [] v w = λ _. w
reserve_credit-ok l done (d ∷ ds) v w =
    let l1 : RiskLedger = record l { credit_remaining = add_at d (neg v) l.credit_remaining } in
    elim (Bool-cases (ltb_ℤ (add_at d (neg v) l.credit_remaining d) (pos 0))) [
      | inl e ↦ rw e (λ q. absurd (true≢false (sym q)))
      | inr e ↦
          let left : pos 0 ≤ℤ add_at d (neg v) l.credit_remaining d = ground arith in
          rw e (
            reserve_credit-ok l1 (done ++ (d ∷ [])) ds v (record {
              exposure_ok = w.exposure_ok;
              credit_ok =
                  add_at-all (λ x n. pos 0 ≤ℤ n) d (neg v) l.credit_remaining left w.credit_ok;
            }))
    ]

-- The counters and the configuration are those of another ledger.
abbrev SameCounters : RiskLedger → RiskLedger → Type 0
SameCounters l m =
    (m.config ≡ l.config)
    × (m.open_exposure ≡ l.open_exposure)
    × (m.credit_remaining ≡ l.credit_remaining)

same-Within : (l m : RiskLedger) → SameCounters l m → Within l → Within m
same-Within l m (c, x, r) w = record {
  exposure_ok = rw (c, x) w.exposure_ok;
  credit_ok = rw r w.credit_ok;
}

allocate_reservation_cases :
    (l : RiskLedger) (ref : BrokerOrderRef)
    → (allocate_reservation l ref ≡ none)
      ⊎ ((found : ℕ × RiskLedger) × (allocate_reservation l ref ≡ some found)
          × SameCounters l found.1)
unfolding allocate_reservation
allocate_reservation_cases l ref = elim (Option-cases (probe l.reservations ref)) [
  | inl e ↦ inl (rw (e, allocate_reservation))
  | inr (p, e) ↦ elim (Bool-cases (reservation_at l p).occupied) [
    | inl o ↦ inl (rw (e, allocate_reservation) (rw o))
    | inr o ↦
        let l' : RiskLedger = record l {
          reservations = set l.reservations p (record (reservation_at l p) { occupied = true });
          reservation_live_count = l.reservation_live_count + 1;
        } in
        inr ((p, l'), rw (e, allocate_reservation) (rw o refl), (refl, refl, refl))
  ]
]

reserve_dims-Within :
    (l : RiskLedger) (dims : List Dim) (strategy venue symbol : ℕ) (side : Side) (volume : ℤ)
    (ref : BrokerOrderRef)
    → Within l
    → (reserve_dims l dims strategy venue symbol side volume ref).0 ≡ true
    → Within (reserve_dims l dims strategy venue symbol side volume ref).1
unfolding reserve_dims write_reservation
reserve_dims-Within l dims strategy venue symbol side volume ref w =
    let exposed : Bool × RiskLedger = reserve_exposure l [] dims volume in
    let credited : Bool × RiskLedger = reserve_credit exposed.1 [] dims volume in
    elim (Bool-cases (reserve_exposure l [] dims volume).0) [
      | inr e ↦ rw e (λ q. absurd (true≢false (sym q)))
      | inl e ↦ elim (Bool-cases (reserve_credit exposed.1 [] dims volume).0) [
        | inr c ↦ rw (e, c) (λ q. absurd (true≢false (sym q)))
        | inl c ↦ elim (allocate_reservation_cases credited.1 ref) [
          | inl a ↦ rw (e, c, a) (λ q. absurd (true≢false (sym q)))
          | inr (found, a, same) ↦
              let w1 : Within exposed.1 = reserve_exposure-ok l [] dims volume w e in
              let w2 : Within credited.1 = reserve_credit-ok exposed.1 [] dims volume w1 c in
              rw (e, c, a) (λ _. same-Within credited.1 _ same w2)
        ]
      ]
    ]

reserve_for-Within :
    (l : RiskLedger) (slot : Option ℕ) (strategy venue symbol : ℕ) (side : Side) (volume : ℤ)
    (ref : BrokerOrderRef)
    → Within l
    → (reserve_for l slot strategy venue symbol side volume ref).0 ≡ true
    → Within (reserve_for l slot strategy venue symbol side volume ref).1
unfolding reserve_for
reserve_for-Within l slot strategy venue symbol side volume ref w =
    elim (Option-cases (find_id venue l.venues)) [
      | inl e ↦ rw (e, reserve_for) (λ _. w)
      | inr (v, e) ↦
          rw (e, reserve_for)
            (elim (Bool-cases (leb max_symbols symbol)) [
              | inl b ↦ rw b (λ _. w)
              | inr b ↦
                  rw b
                    (elim (Bool-cases (
                      (elim slot [ none ↦ false | some s ↦ l.halted (strategy_dim s) ])
                      || l.halted (venue_dim v)
                      || l.halted (symbol_dim symbol))) [
                        | inl h ↦ rw h (λ _. w)
                        | inr h ↦ rw h (
                            reserve_dims-Within l (dims_with slot symbol v) strategy venue symbol
                              side volume ref w)
                      ])
            ])
    ]

reserve-accepted :
    (l : RiskLedger) (strategy venue symbol : ℕ) (side : Side) (volume : ℤ) (ref : BrokerOrderRef)
    → Within l
    → (reserve l strategy venue symbol side volume ref).0 ≡ true
    → Within (reserve l strategy venue symbol side volume ref).1
unfolding reserve
reserve-accepted l strategy venue symbol side volume ref w =
    elim (Bool-cases (leb_ℤ volume (pos 0) || ltb_ℤ l.config.max_order_volume volume)) [
      | inl a ↦ rw a (λ _. w)
      | inr a ↦ rw a (elim (Bool-cases (is_some (find_reservation l.reservations ref))) [
        | inl b ↦ rw b (λ _. w)
        | inr b ↦ rw b (elim (Bool-cases (strategy == unattributed_strategy)) [
          | inl c ↦ rw c (reserve_for-Within l none strategy venue symbol side volume ref w)
          | inr c ↦ rw c (elim (Option-cases (find_id strategy l.strategies)) [
            | inl d ↦ rw (d, reserve) (λ _. w)
            | inr (s, d) ↦
                rw d (reserve_for-Within l (some s) strategy venue symbol side volume ref w)
          ])
        ])
      ])
    ]

-- No reservation, accepted or refused, takes any dimension over its limit of open orders or its credit
-- below zero.
pub reserve-Within :
    (l : RiskLedger) (strategy venue symbol : ℕ) (side : Side) (volume : ℤ) (ref : BrokerOrderRef)
    → Within l
    → Within (reserve l strategy venue symbol side volume ref).1
reserve-Within l strategy venue symbol side volume ref w =
    elim (Bool-cases (reserve l strategy venue symbol side volume ref).0) [
      | inl e ↦ reserve-accepted l strategy venue symbol side volume ref w e
      | inr e ↦ subst Within (sym (reserve_refused l strategy venue symbol side volume ref e)) w
    ]

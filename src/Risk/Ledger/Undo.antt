-- ===== src/Risk/Ledger/Undo.antt =====
-- A reservation that is refused leaves the ledger as it was.
use mathlib.Core.Path.{fun_ext}
use mathlib.Core.Bool.{true≢false}
use market_microstructure_en.Base.{
  ℕ, ◌≡◌, refl, sym, ap, ◌∙◌, Bool, true, false, ◌||◌, ◌==◌, leb, List, [], ◌∷◌, ◌++◌, Bool-cases,
  inl, inr, Option, none, some, Option-cases, is_some,
}
use market_microstructure_en.Base.Int.{ℤ, pos, ltb_ℤ, leb_ℤ, neg, int_laws}
use market_microstructure_en.Exec.Types.{BrokerOrderRef, Side}
use market_microstructure_en.Risk.Ledger.{
  Dim, dim_eq, RiskLedger, limits_of, add_at, unwind_exposure, unwind_credit, reserve_exposure,
  reserve_credit, find_id, max_symbols, unattributed_strategy, strategy_dim, venue_dim, symbol_dim,
}
use market_microstructure_en.Risk.Ledger.Table.{find_reservation}
use market_microstructure_en.Risk.Ledger.Operations.{
  allocate_reservation, reserve_dims, reserve_for, reserve, dims_with,
}

-- Additions to counters commute, and one is taken back by its opposite.
add_at_comm :
    (d e : Dim) (v w : ℤ) (f : Dim → ℤ) → add_at d v (add_at e w f) ≡ add_at e w (add_at d v f)
unfolding add_at
add_at_comm d e v w f = fun_ext (λ x. elim (Bool-cases (dim_eq d x)) [
  | inl p ↦ elim (Bool-cases (dim_eq e x)) [
    | inl q ↦ rw (p, q) (omega int_laws)
    | inr q ↦ rw (p, q)
  ]
  | inr p ↦ rw p
])

add_at-neg : (d : Dim) (v : ℤ) (f : Dim → ℤ) → add_at d (neg v) (add_at d v f) ≡ f
unfolding add_at
add_at-neg d v f =
    fun_ext (λ x. elim (Bool-cases (dim_eq d x)) [ inl p ↦ rw p (omega int_laws) | inr p ↦ rw p ])

neg-add_at : (d : Dim) (v : ℤ) (f : Dim → ℤ) → add_at d v (add_at d (neg v) f) ≡ f
unfolding add_at
neg-add_at d v f =
    fun_ext (λ x. elim (Bool-cases (dim_eq d x)) [ inl p ↦ rw p (omega int_laws) | inr p ↦ rw p ])

-- What unwinding does to the exposures.
unwind-last :
    (l : RiskLedger) (ds : List Dim) (d : Dim) (v : ℤ)
    → unwind_exposure (record l { open_exposure = add_at d v l.open_exposure }) (ds ++ (d ∷ [])) v
      ≡ unwind_exposure l ds v
unfolding unwind_exposure
unwind-last l [] d v = ap (λ f. record l { open_exposure = f }) (add_at-neg d v l.open_exposure)
unwind-last l (e ∷ ds) d v =
    ap (λ f. unwind_exposure (record l { open_exposure = f }) (ds ++ (d ∷ [])) v)
      (add_at_comm e d (neg v) v l.open_exposure)
    ∙ unwind-last (record l { open_exposure = add_at e (neg v) l.open_exposure }) ds d v

credit-last :
    (l : RiskLedger) (ds : List Dim) (d : Dim) (v : ℤ)
    → unwind_credit
        (record l { credit_remaining = add_at d (neg v) l.credit_remaining })
        (ds ++ (d ∷ []))
        v
      ≡ unwind_credit l ds v
unfolding unwind_credit
credit-last l [] d v =
    ap (λ f. record l { credit_remaining = f }) (neg-add_at d v l.credit_remaining)
credit-last l (e ∷ ds) d v =
    ap (λ f. unwind_credit (record l { credit_remaining = f }) (ds ++ (d ∷ [])) v)
      (add_at_comm e d v (neg v) l.credit_remaining)
    ∙ credit-last (record l { credit_remaining = add_at e v l.credit_remaining }) ds d v

append_assoc : (xs : List Dim) (d : Dim) (ys : List Dim) → (xs ++ (d ∷ [])) ++ ys ≡ xs ++ (d ∷ ys)
append_assoc [] d ys = refl
append_assoc (x ∷ xs) d ys = ap (λ zs. x ∷ zs) (append_assoc xs d ys)

append_nil : (xs : List Dim) → xs ++ [] ≡ xs
append_nil [] = refl
append_nil (x ∷ xs) = ap (λ ys. x ∷ ys) (append_nil xs)

-- Each loop either passes every dimension, and unwinding all of them leads back, or it leads back itself.
reserve_exposure_lem :
    (l : RiskLedger) (done todo : List Dim) (v : ℤ)
    → ((reserve_exposure l done todo v).0 ≡ false
        → (reserve_exposure l done todo v).1 ≡ unwind_exposure l done v)
      × ((reserve_exposure l done todo v).0 ≡ true
          → unwind_exposure (reserve_exposure l done todo v).1 (done ++ todo) v
            ≡ unwind_exposure l done v)
unfolding reserve_exposure
reserve_exposure_lem l done [] v =
    (λ q. absurd (true≢false q), λ _. ap (λ ds. unwind_exposure l ds v) (append_nil done))
reserve_exposure_lem l done (d ∷ ds) v =
    let l1 : RiskLedger = record l { open_exposure = add_at d v l.open_exposure } in
    let (fails, leads) = reserve_exposure_lem l1 (done ++ (d ∷ [])) ds v in
    elim (Bool-cases
      (ltb_ℤ (limits_of l.config d).open_order_limit (add_at d v l.open_exposure d))) [
        | inl e ↦ rw e (
          λ _.
              ap (λ f. unwind_exposure (record l { open_exposure = f }) done v)
                (add_at-neg d v l.open_exposure),
          λ q. absurd (true≢false (sym q)),
        )
        | inr e ↦ rw e (
          λ q. fails q ∙ unwind-last l done d v,
          λ q.
              ap (λ xs. unwind_exposure (reserve_exposure l1 (done ++ (d ∷ [])) ds v).1 xs v)
                (sym (append_assoc done d ds))
              ∙ leads q
              ∙ unwind-last l done d v,
        )
      ]

reserve_credit_lem :
    (l : RiskLedger) (done todo : List Dim) (v : ℤ)
    → ((reserve_credit l done todo v).0 ≡ false
        → (reserve_credit l done todo v).1 ≡ unwind_credit l done v)
      × ((reserve_credit l done todo v).0 ≡ true
          → unwind_credit (reserve_credit l done todo v).1 (done ++ todo) v
            ≡ unwind_credit l done v)
unfolding reserve_credit
reserve_credit_lem l done [] v =
    (λ q. absurd (true≢false q), λ _. ap (λ ds. unwind_credit l ds v) (append_nil done))
reserve_credit_lem l done (d ∷ ds) v =
    let l1 : RiskLedger = record l { credit_remaining = add_at d (neg v) l.credit_remaining } in
    let (fails, leads) = reserve_credit_lem l1 (done ++ (d ∷ [])) ds v in
    elim (Bool-cases (ltb_ℤ (add_at d (neg v) l.credit_remaining d) (pos 0))) [
      | inl e ↦ rw e (
        λ _.
            ap (λ f. unwind_credit (record l { credit_remaining = f }) done v)
              (neg-add_at d v l.credit_remaining),
        λ q. absurd (true≢false (sym q)),
      )
      | inr e ↦ rw e (
        λ q. fails q ∙ credit-last l done d v,
        λ q.
            ap (λ xs. unwind_credit (reserve_credit l1 (done ++ (d ∷ [])) ds v).1 xs v)
              (sym (append_assoc done d ds))
            ∙ leads q
            ∙ credit-last l done d v,
      )
    ]

bump : Dim → ℤ → RiskLedger → RiskLedger
bump d v l = record l { open_exposure = add_at d (neg v) l.open_exposure }

credit-bump :
    (l : RiskLedger) (es : List Dim) (w : ℤ) (d : Dim) (v : ℤ)
    → unwind_credit (bump d v l) es w ≡ bump d v (unwind_credit l es w)
unfolding unwind_credit bump
credit-bump l [] w d v = refl
credit-bump l (e ∷ es) w d v =
    credit-bump (record l { credit_remaining = add_at e w l.credit_remaining }) es w d v

unwind-swap :
    (l : RiskLedger) (ds es : List Dim) (v w : ℤ)
    → unwind_credit (unwind_exposure l ds v) es w ≡ unwind_exposure (unwind_credit l es w) ds v
unfolding unwind_exposure bump
unwind-swap l [] es v w = refl
unwind-swap l (d ∷ ds) es v w =
    unwind-swap (bump d v l) ds es v w ∙ ap (λ m. unwind_exposure m ds v) (credit-bump l es w d v)

reserve_dims-refused :
    (l : RiskLedger) (dims : List Dim) (strategy venue symbol : ℕ) (side : Side) (volume : ℤ)
    (ref : BrokerOrderRef)
    → (reserve_dims l dims strategy venue symbol side volume ref).0 ≡ false
    → (reserve_dims l dims strategy venue symbol side volume ref).1 ≡ l
unfolding reserve_dims unwind_exposure unwind_credit
reserve_dims-refused l dims strategy venue symbol side volume ref =
    let exposed : Bool × RiskLedger = reserve_exposure l [] dims volume in
    let credited : Bool × RiskLedger = reserve_credit exposed.1 [] dims volume in
    let (fails, leads) = reserve_exposure_lem l [] dims volume in
    let (fails', leads') = reserve_credit_lem exposed.1 [] dims volume in
    elim (Bool-cases (reserve_exposure l [] dims volume).0) [
      | inr e ↦ rw e (λ _. fails e)
      | inl e ↦ elim (Bool-cases (reserve_credit exposed.1 [] dims volume).0) [
        | inr c ↦ rw (e, c) (λ _. ap (λ m. unwind_exposure m dims volume) (fails' c) ∙ leads e)
        | inl c ↦ elim (Option-cases (allocate_reservation credited.1 ref)) [
          | inl a ↦
              rw (e, c, a)
                (λ _.
                  unwind-swap credited.1 dims dims volume volume
                  ∙ ap (λ m. unwind_exposure m dims volume) (leads' c)
                  ∙ leads e)
          | inr (found, a) ↦ rw (e, c, a) (λ q. absurd (true≢false q))
        ]
      ]
    ]

reserve_for-refused :
    (l : RiskLedger) (slot : Option ℕ) (strategy venue symbol : ℕ) (side : Side) (volume : ℤ)
    (ref : BrokerOrderRef)
    → (reserve_for l slot strategy venue symbol side volume ref).0 ≡ false
    → (reserve_for l slot strategy venue symbol side volume ref).1 ≡ l
unfolding reserve_for
reserve_for-refused l slot strategy venue symbol side volume ref =
    elim (Option-cases (find_id venue l.venues)) [
      | inl e ↦ rw (e, reserve_for) (λ _. refl)
      | inr (v, e) ↦
          rw (e, reserve_for)
            (elim (Bool-cases (leb max_symbols symbol)) [
              | inl b ↦ rw b (λ _. refl)
              | inr b ↦
                  rw b
                    (elim (Bool-cases (
                      (elim slot [ none ↦ false | some s ↦ l.halted (strategy_dim s) ])
                      || l.halted (venue_dim v)
                      || l.halted (symbol_dim symbol))) [
                        | inl h ↦ rw h (λ _. refl)
                        | inr h ↦ rw h (
                            reserve_dims-refused l (dims_with slot symbol v) strategy venue symbol
                              side volume ref)
                      ])
            ])
    ]

-- A reservation that is refused, at whatever point, leaves the whole ledger as it was.
pub reserve_refused :
    (l : RiskLedger) (strategy venue symbol : ℕ) (side : Side) (volume : ℤ) (ref : BrokerOrderRef)
    → (reserve l strategy venue symbol side volume ref).0 ≡ false
    → (reserve l strategy venue symbol side volume ref).1 ≡ l
unfolding reserve
reserve_refused l strategy venue symbol side volume ref =
    elim (Bool-cases (leb_ℤ volume (pos 0) || ltb_ℤ l.config.max_order_volume volume)) [
      | inl a ↦ rw a (λ _. refl)
      | inr a ↦ rw a (elim (Bool-cases (is_some (find_reservation l.reservations ref))) [
        | inl b ↦ rw b (λ _. refl)
        | inr b ↦ rw b (elim (Bool-cases (strategy == unattributed_strategy)) [
          | inl c ↦ rw c (reserve_for-refused l none strategy venue symbol side volume ref)
          | inr c ↦ rw c (elim (Option-cases (find_id strategy l.strategies)) [
            | inl d ↦ rw (d, reserve) (λ _. refl)
            | inr (s, d) ↦
                rw d (reserve_for-refused l (some s) strategy venue symbol side volume ref)
          ])
        ])
      ])
    ]

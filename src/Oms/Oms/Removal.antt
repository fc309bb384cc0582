-- ===== src/Oms/Oms/Removal.antt =====
-- Lookups in a list of live orders after a write, an append and a swap removal.
use mathlib.Core.Bool.{true≢false}
use market_microstructure_en.Base.{
  ℕ, zero, suc, ◌-◌, ◌<◌, ◌≡◌, ◌≢◌, refl, sym, ap, ◌∙◌, arith, ◌==◌, true, false, if◌then◌else◌,
  List, [], ◌∷◌, ◌++◌, get_or, set, length, length-set, Bool-cases, inl, inr, none, some,
  length-take, get_or-set_self, get_or-set_ne, get_or-take,
}
use market_microstructure_en.Exec.Types.{BrokerOrderRef, Order, default_order, ref_eq, ref_eq_iff}
use market_microstructure_en.Oms.Index.Indexed.{key}
use market_microstructure_en.Oms.Oms.Inv.{lookup, lookup_cases}
use market_microstructure_en.Oms.Index.Rehash.{Distinct}
use market_microstructure_en.Oms.Oms.Keep.{swap_remove}

-- With distinct references a lookup returns the order that holds the reference.
pub lookup_at :
    (ref : BrokerOrderRef) (orders : List Order) (s : ℕ)
    → Distinct orders
    → s < length orders
    → key orders s ≡ ref
    → lookup ref orders ≡ some (get_or orders s default_order)
lookup_at ref orders s distinct h hk = elim (lookup_cases ref orders) [
  | inl (t, ht, kt, found) ↦
      let e : t ≡ s = distinct t s ht h (kt ∙ sym hk) in
      found ∙ ap (λ u. some (get_or orders u default_order)) e
  | inr (absent, _) ↦ absurd (absent s h hk)
]

pub lookup_absent :
    (ref : BrokerOrderRef) (orders : List Order)
    → ((s : ℕ) → s < length orders → key orders s ≢ ref)
    → lookup ref orders ≡ none
lookup_absent ref orders absent = elim (lookup_cases ref orders) [
  | inl (s, h, hk, _) ↦ absurd (absent s h hk)
  | inr (_, e) ↦ e
]

-- The order at a position after a swap removal.
get_or-swap_remove :
    (orders : List Order) (slot u : ℕ)
    → slot < length orders
    → u < length orders - 1
    → get_or (swap_remove orders slot) u default_order
      ≡ get_or orders (if slot == u then length orders - 1 else u) default_order
unfolding swap_remove
get_or-swap_remove orders slot u hs hu = elim (Bool-cases (slot == (length orders - 1))) [
  | inl e ↦
      let ne : (slot == u) ≡ false = ground arith in
      rw (e, ne) (get_or-take (length orders - 1) orders u default_order hu)
  | inr e ↦ rw e (
      get_or-take (length orders - 1) _ u default_order hu ∙ elim (Bool-cases (slot == u)) [
        | inl same ↦
            let eq : slot ≡ u = ground arith in
            rw (same, ← eq) (get_or-set_self orders slot last default_order hs)
        | inr other ↦ rw other (get_or-set_ne orders slot u last default_order (ground arith))
      ])
]
  where
    last : Order
    last = get_or orders (length orders - 1) default_order

length-swap_remove :
    (orders : List Order) (slot : ℕ) → length (swap_remove orders slot) ≡ length orders - 1
unfolding swap_remove
length-swap_remove orders slot = elim (Bool-cases (slot == (length orders - 1))) [
  | inl e ↦ rw e (omega (arith, length-take (length orders - 1) orders))
  | inr e ↦ rw e (
      omega (
        arith,
        length-take (length orders - 1) (set orders slot last),
        length-set orders slot last,
      ))
]
  where
    last : Order
    last = get_or orders (length orders - 1) default_order

module _ (r : BrokerOrderRef) (orders : List Order) (slot : ℕ) (distinct : Distinct orders)
    (distinct' : Distinct (swap_remove orders slot)) (hs : slot < length orders) where
  source : ℕ → ℕ
  source u = if slot == u then length orders - 1 else u

  key-swap_remove :
      (u : ℕ) → u < length orders - 1 → key (swap_remove orders slot) u ≡ key orders (source u)
  unfolding source
  key-swap_remove u hu = ap (λ (x : Order). x.ref) (get_or-swap_remove orders slot u hs hu)

  source-lt : (u : ℕ) → u < length orders - 1 → source u < length orders
  unfolding source
  source-lt u hu = ground arith

  -- The reference of the removed order is gone.
  removed_gone : key orders slot ≡ r → lookup r (swap_remove orders slot) ≡ none
  unfolding source
  removed_gone e = lookup_absent r (swap_remove orders slot) λ u hu q.
      let hu' : u < length orders - 1 = omega (arith, length-swap_remove orders slot) in
      let same : source u ≡ slot =
        distinct (source u) slot (source-lt u hu') hs (sym (key-swap_remove u hu') ∙ q ∙ sym e) in
      absurd (ground arith)

  -- Every other order is found as before, where it now stands.
  others_kept :
      (t : ℕ)
      → t < length orders
      → key orders t ≡ r
      → t ≢ slot
      → lookup r (swap_remove orders slot) ≡ some (get_or orders t default_order)
  unfolding source
  others_kept t ht kt ne = elim (Bool-cases (t == (length orders - 1))) [
    | inl last ↦
        let hu : slot < length orders - 1 = ground arith in
        let src : source slot ≡ t = ground arith in
        lookup_at r (swap_remove orders slot) slot distinct'
          (omega (arith, length-swap_remove orders slot))
          (key-swap_remove slot hu ∙ ap (key orders) src ∙ kt)
        ∙ ap some (get_or-swap_remove orders slot slot hs hu)
        ∙ ap (λ u. some (get_or orders u default_order)) src
    | inr before ↦
        let hu : t < length orders - 1 = ground arith in
        let src : source t ≡ t = ground arith in
        lookup_at r (swap_remove orders slot) t distinct'
          (omega (arith, length-swap_remove orders slot))
          (key-swap_remove t hu ∙ ap (key orders) src ∙ kt)
        ∙ ap some (get_or-swap_remove orders slot t hs hu)
        ∙ ap (λ u. some (get_or orders u default_order)) src
  ]

  -- After a swap removal exactly the removed reference is gone.
  pub lookup-swap_remove :
      lookup r (swap_remove orders slot)
      ≡ (if ref_eq (key orders slot) r then none else lookup r orders)
  lookup-swap_remove = elim (Bool-cases (ref_eq (key orders slot) r)) [
    | inl e ↦ rw e (removed_gone ((ref_eq_iff (key orders slot) r).0 e))
    | inr e ↦ rw e (elim (lookup_cases r orders) [
      | inl (t, ht, kt, found) ↦
          others_kept t ht kt (λ q.
            true≢false
              (sym ((ref_eq_iff (key orders slot) r).1 (ap (key orders) (sym q) ∙ kt)) ∙ e))
          ∙ sym found
      | inr (absent, missing) ↦
          lookup_absent r (swap_remove orders slot) (λ u hu q.
            let hu' : u < length orders - 1 = omega (arith, length-swap_remove orders slot) in
            absent (source u) (source-lt u hu') (sym (key-swap_remove u hu') ∙ q))
          ∙ sym missing
    ])
  ]

tail-Distinct : (o : Order) (os : List Order) → Distinct (o ∷ os) → Distinct os
tail-Distinct o os d s t hs ht e = omega (arith, d (suc s) (suc t) (omega arith) (omega arith) e)

-- After a write that keeps the reference, that reference leads to the new order.
pub lookup-set :
    (r : BrokerOrderRef) (orders : List Order) (slot : ℕ) (x : Order)
    → Distinct orders
    → slot < length orders
    → x.ref ≡ key orders slot
    → lookup r (set orders slot x)
      ≡ (if ref_eq (key orders slot) r then some x else lookup r orders)
unfolding lookup
lookup-set r [] slot x distinct hs e = absurd (omega arith)
lookup-set r (o ∷ os) zero x distinct hs e =
    rw e (elim (Bool-cases (ref_eq o.ref r)) [ inl q ↦ rw q | inr q ↦ rw q ])
lookup-set r (o ∷ os) (suc slot) x distinct hs e = elim (Bool-cases (ref_eq o.ref r)) [
  | inl q ↦ let away : ref_eq (key os slot) r ≡ false = other q in rw (q, away)
  | inr q ↦ rw q (lookup-set r os slot x (tail-Distinct o os distinct) (omega arith) e)
]
  where
    other : ref_eq o.ref r ≡ true → ref_eq (key os slot) r ≡ false
    other q = elim (Bool-cases (ref_eq (key os slot) r)) [
      | inl both ↦ absurd (
          omega (
            arith,
            distinct 0 (suc slot) (omega arith) hs
                ((ref_eq_iff o.ref r).0 q ∙ sym ((ref_eq_iff (key os slot) r).0 both)),
          ))
      | inr no_match ↦ no_match
    ]

-- An appended order is found, and hides no other.
pub lookup-append :
    (r : BrokerOrderRef) (orders : List Order) (x : Order)
    → ((s : ℕ) → s < length orders → key orders s ≢ x.ref)
    → lookup r (orders ++ (x ∷ [])) ≡ (if ref_eq x.ref r then some x else lookup r orders)
unfolding lookup
lookup-append r [] x fresh = refl
lookup-append r (o ∷ os) x fresh = elim (Bool-cases (ref_eq o.ref r)) [
  | inl q ↦ rw (q, fresh_head q)
  | inr q ↦ rw q (lookup-append r os x (λ s h. fresh (suc s) (omega arith)))
]
  where
    fresh_head : ref_eq o.ref r ≡ true → ref_eq x.ref r ≡ false
    fresh_head q = elim (Bool-cases (ref_eq x.ref r)) [
      | inl both ↦
          absurd
            (fresh 0 (omega arith) ((ref_eq_iff o.ref r).0 q ∙ sym ((ref_eq_iff x.ref r).0 both)))
      | inr no_match ↦ no_match
    ]

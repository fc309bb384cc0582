-- ===== src/Oms/Oms/Inv.antt =====
-- The invariant of the order store, and what its lookup finds under it.
use mathlib.Core.Bool.{true≢false}
use market_microstructure_en.Base.{
  ℕ, zero, suc, ◌+◌, ◌*◌, ◌≤◌, ◌<◌, ◌≡◌, ◌≢◌, refl, sym, ap, ◌∙◌, arith, leb, ◌==◌, false,
  if◌then◌else◌, List, [], ◌∷◌, get_or, length, Bool-cases, inl, inr, ◌⊎◌, Option, none, some,
}
use market_microstructure_en.Base.Int.{ℤ, pos, ◌+ℤ◌}
use market_microstructure_en.Base.Words.{u32_mod}
use market_microstructure_en.Exec.Types.{
  BrokerOrderRef, Order, default_order, ref_eq, ref_eq_iff, reserves_exposure,
}
use market_microstructure_en.Oms.Index.{index_probe_find}
use market_microstructure_en.Oms.Index.Mask.{pow2, next_pow2-pow2, next_pow2-le}
use market_microstructure_en.Oms.Index.Table.{at}
use market_microstructure_en.Oms.Index.Indexed.{Indexed, key, find_live, find_absent}
use market_microstructure_en.Oms.Index.Rehash.{empty-Indexed}
use market_microstructure_en.Oms.Oms.{Oms, make, probe_find, slot_at, find_slot, order_at, find}

-- What an order holds of `reserved_`, and the total over the live orders.
unfoldable pub reservation : Order → ℤ
reservation o = if reserves_exposure o.state then o.requested_volume else pos 0

unfoldable pub total_reserved : List Order → ℤ
total_reserved [] = pos 0
total_reserved (o ∷ os) = reservation o +ℤ total_reserved os

-- The part of the invariant that the lookups rest on.
pub record Inv (o : Oms) : Type 0 where
  pub width : ℕ
  pub pow2_ok : o.index_capacity ≡ pow2 width
  pub room : o.capacity < pow2 width
  pub narrow : o.capacity + 2 ≤ u32_mod
  pub bounded : length o.orders ≤ o.capacity
  pub indexed : Indexed width o.orders o.index

-- The abstract store: the live orders as a list, looked up by reference.
unfoldable pub lookup : BrokerOrderRef → List Order → Option Order
lookup ref [] = none
lookup ref (o ∷ os) = if ref_eq o.ref ref then some o else lookup ref os

key-cons-ne :
    (ref : BrokerOrderRef) (o : Order) (os : List Order)
    → ref_eq o.ref ref ≡ false
    → ((s : ℕ) → s < length os → key os s ≢ ref)
    → (s : ℕ) → s < suc (length os)
    → key (o ∷ os) s ≢ ref
key-cons-ne ref o os e absent zero h q = true≢false (sym ((ref_eq_iff o.ref ref).1 q) ∙ e)
key-cons-ne ref o os e absent (suc s) h q = absent s (omega arith) q

-- Where a lookup in a list ends.
pub lookup_cases :
    (ref : BrokerOrderRef) (orders : List Order)
    → ((s : ℕ) × (s < length orders)
        × (key orders s ≡ ref)
        × (lookup ref orders ≡ some (get_or orders s default_order)))
      ⊎ (((s : ℕ) → s < length orders → key orders s ≢ ref) × (lookup ref orders ≡ none))
unfolding lookup
lookup_cases ref [] = inr (λ s h. absurd (omega arith), refl)
lookup_cases ref (o ∷ os) = elim (Bool-cases (ref_eq o.ref ref)) [
  | inl e ↦ inl (0, omega arith, (ref_eq_iff o.ref ref).0 e, rw e)
  | inr e ↦ elim (lookup_cases ref os) [
    | inl (s, h, hk, hl) ↦ inl (suc s, omega arith, hk, rw e hl)
    | inr (absent, hl) ↦ inr (key-cons-ne ref o os e absent, rw e hl)
  ]
]

-- The slot that a lookup of a live order returns.
pub find_slot-live :
    (o : Oms) (s : ℕ)
    → Inv o
    → s < length o.orders
    → (p : ℕ) × (probe_find o (key o.orders s) ≡ some p)
      × (p < o.index_capacity)
      × (at o.index p ≡ s + 2)
      × (find_slot o (key o.orders s) ≡ some s)
unfolding find_slot probe_find slot_at
find_slot-live o s v hs =
    let (p, found, hp, hv) = find_live v.width o.orders o.index s v.indexed hs in
    let cap : index_probe_find o.orders o.index o.index_capacity (key o.orders s) ≡ some p =
      rw v.pow2_ok found in
    (p, cap, omega (arith, v.pow2_ok), hv, rw (cap, find_slot) (ap some (omega (arith, hv))))

-- A reference that no live order has is not found.
pub find_slot-absent :
    (o : Oms) (ref : BrokerOrderRef)
    → Inv o
    → ((s : ℕ) → s < length o.orders → key o.orders s ≢ ref)
    → find_slot o ref ≡ none
unfolding find_slot probe_find
find_slot-absent o ref v absent =
    let cap : index_probe_find o.orders o.index o.index_capacity ref ≡ none =
      rw v.pow2_ok (find_absent v.width o.orders o.index ref v.indexed absent) in
    rw (cap, find_slot)

-- The two ways a lookup of a slot ends.
pub find_slot_cases :
    (o : Oms) (ref : BrokerOrderRef)
    → Inv o
    → ((s : ℕ) × (s < length o.orders)
        × (key o.orders s ≡ ref)
        × (find_slot o ref ≡ some s)
        × (lookup ref o.orders ≡ some (order_at o s)))
      ⊎ (((s : ℕ) → s < length o.orders → key o.orders s ≢ ref)
          × (find_slot o ref ≡ none)
          × (lookup ref o.orders ≡ none))
unfolding order_at
find_slot_cases o ref v = elim (lookup_cases ref o.orders) [
  | inl (s, h, hk, hl) ↦
      let (p, _, _, _, found) = find_slot-live o s v h in
      inl (s, h, hk, ap (find_slot o) (sym hk) ∙ found, hl)
  | inr (absent, hl) ↦ inr (absent, find_slot-absent o ref v absent, hl)
]

-- `find` is the lookup in the list of live orders.
pub find-lookup : (o : Oms) (ref : BrokerOrderRef) → Inv o → find o ref ≡ lookup ref o.orders
unfolding find
find-lookup o ref v = elim (find_slot_cases o ref v) [
  | inl (s, _, _, found, hl) ↦ rw (found, find) (sym hl)
  | inr (_, missing, hl) ↦ rw (missing, find) (sym hl)
]

-- A new store meets the invariant, if the slots of its capacity fit the 32-bit index entries.
pub make-Inv : (capacity : ℕ) → capacity + 2 ≤ u32_mod → Inv (make capacity)
unfolding make
make-Inv capacity h =
    let (width, e) = next_pow2-pow2 wanted in
    record {
      width = width;
      pow2_ok = e;
      room = omega (arith, wanted-lt, next_pow2-le wanted (omega (arith, wanted-le)), e);
      narrow = h;
      bounded = omega arith;
      indexed = rw e (empty-Indexed width);
    }
  where
    wanted : ℕ
    wanted = (if capacity == 0 then 1 else capacity) * 2

    wanted-lt : capacity < wanted
    wanted-lt = ground arith

    wanted-le : wanted ≤ capacity * 2 + 2
    wanted-le = ground arith

-- No entry of the index is cut by its 32 bits.
pub index-lt : (o : Oms) (p : ℕ) → Inv o → p < o.index_capacity → at o.index p < u32_mod
index-lt o p v hp = elim (Bool-cases (leb 2 (at o.index p))) [
  | inl e ↦
      let two : 2 ≤ at o.index p = ground arith in
      omega (arith, v.narrow, v.bounded, v.indexed.live p (omega (arith, v.pow2_ok)) two)
  | inr e ↦ let few : at o.index p < 2 = ground arith in omega arith
]

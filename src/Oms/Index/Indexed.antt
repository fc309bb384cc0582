-- ===== src/Oms/Index/Indexed.antt =====
-- The index and the dense array of live orders agree, and the operations keep them so.
use market_microstructure_en.Base.{
  ℕ, ◌+◌, ◌-◌, ◌≤◌, ◌<◌, ◌≡◌, ◌≢◌, sym, ap, ◌∙◌, arith, ◌==◌, List, [], ◌∷◌, ◌++◌, get_or, set,
  length, length-set, Bool-cases, inl, inr, none, some, length-append, get_or-append_left,
  get_or-append_last,
}
use market_microstructure_en.Exec.Types.{BrokerOrderRef, Order, default_order}
use market_microstructure_en.Oms.Index.{home_of, ref_at, index_probe_find, index_insert}
use market_microstructure_en.Oms.Index.Mask.{pow2}
use market_microstructure_en.Oms.Index.Table.{at, at-set, Placed, set-Placed, filled, filled-set}
use market_microstructure_en.Oms.Index.Probe.{
  Inserted, index_insert-Inserted, index_probe_find-hit, index_probe_find-miss,
}

-- The reference of the order in a slot.
abbrev pub key : List Order → ℕ → BrokerOrderRef
key orders s = (get_or orders s default_order).ref

pub record Indexed (k : ℕ) (orders : List Order) (index : List ℕ) : Type 0 where
  pub size_ok : length index ≡ pow2 k
  pub used : filled index ≡ length orders
  pub reach :
      (s : ℕ) → s < length orders → Placed (pow2 k) index (home_of (pow2 k) (key orders s)) (s + 2)
  pub once : (p q : ℕ) → p < pow2 k → q < pow2 k → 2 ≤ at index p → at index p ≡ at index q → p ≡ q
  pub live : (p : ℕ) → p < pow2 k → 2 ≤ at index p → at index p < length orders + 2
  pub distinct :
      (s t : ℕ) → s < length orders → t < length orders → key orders s ≡ key orders t → s ≡ t

pub ref_at-key : (orders : List Order) (s : ℕ) → ref_at orders (s + 2) ≡ key orders s
unfolding ref_at
ref_at-key orders s = ap (λ v. (get_or orders v default_order).ref) (omega arith)

-- A reference that a live slot holds is found, at the place of that slot.
pub find_live :
    (k : ℕ) (orders : List Order) (index : List ℕ) (s : ℕ)
    → Indexed k orders index
    → s < length orders
    → (p : ℕ) × (index_probe_find orders index (pow2 k) (key orders s) ≡ some p)
      × (p < pow2 k)
      × (at index p ≡ s + 2)
find_live k orders index s ix hs =
    index_probe_find-hit k orders index (key orders s) s (ix.reach s hs) (ref_at-key orders s) only
  where
    only :
        (p : ℕ)
        → p < pow2 k
        → 2 ≤ at index p
        → ref_at orders (at index p) ≡ key orders s
        → at index p ≡ s + 2
    only p hp two e =
        let v : at index p ≡ (at index p - 2) + 2 = omega arith in
        let same : key orders (at index p - 2) ≡ key orders s =
          sym (ref_at-key orders (at index p - 2)) ∙ ap (ref_at orders) (sym v) ∙ e in
        omega (arith, ix.distinct (at index p - 2) s (omega (arith, ix.live p hp two)) hs same)

-- A reference that no live slot holds is not found.
pub find_absent :
    (k : ℕ) (orders : List Order) (index : List ℕ) (ref : BrokerOrderRef)
    → Indexed k orders index
    → ((s : ℕ) → s < length orders → key orders s ≢ ref)
    → index_probe_find orders index (pow2 k) ref ≡ none
find_absent k orders index ref ix absent = index_probe_find-miss k orders index ref λ p hp two e.
    let v : at index p ≡ (at index p - 2) + 2 = omega arith in
    absent (at index p - 2) (omega (arith, ix.live p hp two))
      (sym (ref_at-key orders (at index p - 2)) ∙ ap (ref_at orders) (sym v) ∙ e)

key-append_left :
    (orders : List Order) (o : Order) (s : ℕ)
    → s < length orders
    → key (orders ++ (o ∷ [])) s ≡ key orders s
key-append_left orders o s h =
    ap (λ (x : Order). x.ref) (get_or-append_left orders (o ∷ []) s default_order h)

key-append_last :
    (orders : List Order) (o : Order) (s : ℕ)
    → s ≡ length orders
    → key (orders ++ (o ∷ [])) s ≡ o.ref
key-append_last orders o s h =
    rw h (ap (λ (x : Order). x.ref) (get_or-append_last orders o default_order))

-- A new order behind the array, with its slot at a free place that its reference reaches.
module _ (k : ℕ) (orders : List Order) (index : List ℕ) (o : Order) (p : ℕ)
    (ix : Indexed k orders index) (hp : p < length index) (free : at index p < 2)
    (reached : Placed
      (pow2 k)
      (set index p (length orders + 2))
      (home_of (pow2 k) o.ref)
      (length orders + 2))
    (fresh : (s : ℕ) → s < length orders → key orders s ≢ o.ref) where
  put_reach :
      (s : ℕ)
      → s < length (orders ++ (o ∷ []))
      → Placed
          (pow2 k)
          (set index p (length orders + 2))
          (home_of (pow2 k) (key (orders ++ (o ∷ [])) s))
          (s + 2)
  put_reach s hs = elim (Bool-cases (s == length orders)) [
    | inl last ↦
        let e : s ≡ length orders = ground arith in rw (key-append_last orders o s e, e) reached
    | inr old ↦
        let below : s < length orders = ground (arith, length-append orders (o ∷ [])) in
        rw (key-append_left orders o s below) (
          set-Placed (pow2 k) index (home_of (pow2 k) (key orders s)) (s + 2) p (length orders + 2)
            hp (omega arith) (omega arith) (ix.reach s below))
  ]

  put_distinct :
      (s t : ℕ)
      → s < length (orders ++ (o ∷ []))
      → t < length (orders ++ (o ∷ []))
      → key (orders ++ (o ∷ [])) s ≡ key (orders ++ (o ∷ [])) t
      → s ≡ t
  put_distinct s t hs ht e = ground (
    arith,
    length-append orders (o ∷ []),
    key-append_left orders o s,
    key-append_last orders o s,
    key-append_left orders o t,
    key-append_last orders o t,
    fresh s,
    fresh t,
    ix.distinct s t,
  )

  put-Indexed : Indexed k (orders ++ (o ∷ [])) (set index p (length orders + 2))
  put-Indexed = record {
    size_ok = length-set index p (length orders + 2) ∙ ix.size_ok;
    used =
        ground
          (arith, ix.used, filled-set index p (length orders + 2), length-append orders (o ∷ []));
    reach = put_reach;
    once = λ a b ha hb two e. ground (
      arith,
      at-set index p (length orders + 2) a,
      at-set index p (length orders + 2) b,
      ix.once a b,
      ix.live a,
      ix.live b,
    );
    live = λ a ha two.
        ground
          (arith, at-set index p (length orders + 2) a, length-append orders (o ∷ []), ix.live a);
    distinct = put_distinct;
  }

-- `index_insert` of a new order's reference.
pub append-Indexed :
    (k : ℕ) (orders : List Order) (index : List ℕ) (tombstones : ℕ) (o : Order)
    → Indexed k orders index
    → length orders < pow2 k
    → ((s : ℕ) → s < length orders → key orders s ≢ o.ref)
    → Indexed k
        (orders ++ (o ∷ []))
        (index_insert index tombstones (pow2 k) o.ref (length orders)).0
append-Indexed k orders index tombstones o ix room fresh = rw ins.written (
    put-Indexed k orders index o ins.place ix (omega (arith, ins.place_in, ix.size_ok)) ins.was_free
      ins.reached fresh)
  where
    ins :
        Inserted k index tombstones
          (length orders)
          (home_of (pow2 k) o.ref)
          (index_insert index tombstones (pow2 k) o.ref (length orders))
    ins =
        index_insert-Inserted k index tombstones o.ref (length orders) ix.size_ok
          (omega (arith, ix.used))

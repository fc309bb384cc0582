-- ===== src/Oms/Index/Reclaim.antt =====
-- Reclaiming a slot: its entry becomes a tombstone, and the last live order moves into the slot.
use native.Mathlib.Nat.{mod-lt}
use market_microstructure_en.Base.{
  ℕ, ◌+◌, ◌-◌, ◌%◌, ◌≤◌, ◌<◌, ◌≡◌, ◌≢◌, sym, ap, ◌∙◌, arith, ◌==◌, if◌then◌else◌, List, get_or, set,
  length, length-set, get_or-set_self, get_or-set_ne, Bool-cases, inl, inr, some, take, length-take,
  get_or-take,
}
use market_microstructure_en.Exec.Types.{Order, default_order}
use market_microstructure_en.Oms.Index.{home_of, ref_at, index_probe_find}
use market_microstructure_en.Oms.Index.Mask.{pow2, pow2_pos}
use market_microstructure_en.Oms.Index.Table.{
  at, at-set, Placed, set-Placed, set-ne-zero, filled-set,
}
use market_microstructure_en.Oms.Index.Probe.{index_probe_find-hit}
use market_microstructure_en.Oms.Index.Indexed.{Indexed, key, ref_at-key}

key-take : (n : ℕ) (orders : List Order) (s : ℕ) → s < n → key (take n orders) s ≡ key orders s
key-take n orders s h = ap (λ (x : Order). x.ref) (get_or-take n orders s default_order h)

pub key-set :
    (orders : List Order) (i s : ℕ) (o : Order)
    → i < length orders
    → key (set orders i o) s ≡ (if i == s then o.ref else key orders s)
key-set orders i s o h = elim (Bool-cases (i == s)) [
  | inl e ↦
      let eq : i ≡ s = ground arith in
      rw (e, ← eq) (ap (λ (x : Order). x.ref) (get_or-set_self orders i o default_order h))
  | inr e ↦
      rw e (ap (λ (x : Order). x.ref) (get_or-set_ne orders i s o default_order (ground arith)))
]

module _ (k : ℕ) (orders : List Order) (index : List ℕ) (slot p : ℕ) (ix : Indexed k orders index)
    (hs : slot < length orders) (hp : p < pow2 k) (hv : at index p ≡ slot + 2) where
  abbrev pub last : ℕ
  last = length orders - 1

  abbrev pub erased : List ℕ
  erased = set index p 1

  p_in : p < length index
  p_in = omega (arith, ix.size_ok)

  erased_keeps :
      (s : ℕ)
      → s < length orders
      → s ≢ slot
      → Placed (pow2 k) erased (home_of (pow2 k) (key orders s)) (s + 2)
  erased_keeps s h ne =
      set-Placed (pow2 k) index (home_of (pow2 k) (key orders s)) (s + 2) p 1 p_in (omega arith)
        (omega arith) (ix.reach s h)

  -- No other place of the table holds the slot.
  erased_no_slot : (a : ℕ) → a < pow2 k → at erased a ≢ slot + 2
  erased_no_slot a ha e = ground (arith, at-set index p 1 a p_in, ix.once p a hp ha (omega arith))

  -- The last order itself is reclaimed.
  pub drop_last-Indexed : slot ≡ last → Indexed k (take last orders) erased
  drop_last-Indexed e = record {
    size_ok = length-set index p 1 ∙ ix.size_ok;
    used =
        ground (arith, ix.used, filled-set index p 1 p_in, length-take (length orders - 1) orders);
    reach = λ s h.
        let below : s < length orders - 1 = omega (arith, length-take (length orders - 1) orders) in
        rw (key-take (length orders - 1) orders s below)
          (erased_keeps s (omega arith) (omega arith));
    once = λ a b ha hb two q.
        ground (arith, at-set index p 1 a p_in, at-set index p 1 b p_in, ix.once a b);
    live = λ a ha two. ground (
      arith,
      at-set index p 1 a p_in,
      length-take (length orders - 1) orders,
      ix.live a,
      ix.once p a hp ha (omega arith),
    );
    distinct = λ s t hs' ht q. ground (
      arith,
      length-take (length orders - 1) orders,
      key-take (length orders - 1) orders s,
      key-take (length orders - 1) orders t,
      ix.distinct s t,
    );
  }

  abbrev pub moved_orders : List Order
  moved_orders = set orders slot (get_or orders last default_order)

  key-moved : (s : ℕ) → key moved_orders s ≡ (if slot == s then key orders last else key orders s)
  key-moved s = key-set orders slot s (get_or orders last default_order) hs

  -- The reference that moves is found at the old slot's place.
  pub find_moved :
      slot ≢ last
      → (m : ℕ) × (index_probe_find moved_orders erased (pow2 k) (key moved_orders slot) ≡ some m)
        × (m < pow2 k)
        × (at erased m ≡ last + 2)
  find_moved ne =
      index_probe_find-hit k moved_orders erased (key moved_orders slot) last
        (rw at_slot (erased_keeps last (omega arith) (λ e. ne (sym e))))
        (ref_at-key moved_orders last ∙ at_last ∙ sym at_slot) only
    where
      at_slot : key moved_orders slot ≡ key orders last
      at_slot = ground (arith, key-moved slot)

      at_last : key moved_orders last ≡ key orders last
      at_last = ground (arith, key-moved last)

      only :
          (a : ℕ)
          → a < pow2 k
          → 2 ≤ at erased a
          → ref_at moved_orders (at erased a) ≡ key moved_orders slot
          → at erased a ≡ last + 2
      only a ha two e =
          let t : ℕ = at erased a - 2 in
          let v : at erased a ≡ t + 2 = omega arith in
          let k1 : key moved_orders t ≡ key orders last =
            sym (ref_at-key moved_orders t) ∙ ap (ref_at moved_orders) (sym v) ∙ e ∙ at_slot in
          ground (
            arith,
            key-moved t,
            erased_no_slot a ha,
            at-set index p 1 a p_in,
            ix.live a ha,
            ix.distinct t last,
          )

  module _ (m : ℕ) (ne : slot ≢ last) (hm : m < pow2 k) (vm : at erased m ≡ last + 2) where
    abbrev pub moved_index : List ℕ
    moved_index = set erased m (slot + 2)

    m_in : m < length erased
    m_in = omega (arith, ix.size_ok, length-set index p 1)

    at-moved :
        (a : ℕ) → at moved_index a ≡ (if m == a then slot + 2 else if p == a then 1 else at index a)
    at-moved a = ground (arith, at-set erased m (slot + 2) a m_in, at-set index p 1 a p_in)

    p-ne-m : p ≢ m
    p-ne-m e = ground (arith, at-set index p 1 m p_in)

    at-m : at index m ≡ last + 2
    at-m = ground (arith, at-set index p 1 m p_in)

    reach_slot :
        Placed (pow2 k) erased (home_of (pow2 k) (key orders last)) (last + 2)
        → Placed (pow2 k) moved_index (home_of (pow2 k) (key orders last)) (slot + 2)
    reach_slot c = record {
      offset = c.offset;
      within = c.within;
      here = ground (
        arith,
        at-moved walk_end,
        at-set index p 1 walk_end p_in,
        at-m,
        ix.once m walk_end hm (mod-lt _ (pow2_pos k)),
        c.here,
      );
      no_gap = λ i hi. set-ne-zero erased m (slot + 2) _ m_in (omega arith) (c.no_gap i hi);
    }
      where
        walk_end : ℕ
        walk_end = (home_of (pow2 k) (key orders last) + c.offset) % pow2 k

    reach_moved :
        (s : ℕ)
        → s < last
        → Placed (pow2 k) moved_index (home_of (pow2 k) (key moved_orders s)) (s + 2)
    reach_moved s h = elim (Bool-cases (slot == s)) [
      | inl e ↦
          let eq : slot ≡ s = ground arith in
          let moved : key moved_orders slot ≡ key orders last = ground (arith, key-moved slot) in
          rw (← eq) (rw moved (reach_slot (erased_keeps last (omega arith) (λ q. ne (sym q)))))
      | inr e ↦
          let kept : key moved_orders s ≡ key orders s = ground (arith, key-moved s) in
          rw kept (
            set-Placed (pow2 k) erased (home_of (pow2 k) (key orders s)) (s + 2) m (slot + 2) m_in
              (omega arith) (omega arith) (erased_keeps s (omega arith) (ground arith)))
    ]

    length-moved : length (take last moved_orders) ≡ last
    length-moved = omega (
      arith,
      length-take last moved_orders,
      length-set orders slot (get_or orders last default_order),
    )

    pub swap-Indexed : Indexed k (take last moved_orders) moved_index
    swap-Indexed = record {
      size_ok = length-set erased m (slot + 2) ∙ length-set index p 1 ∙ ix.size_ok;
      used = ground (
        arith,
        ix.used,
        filled-set index p 1 p_in,
        filled-set erased m (slot + 2) m_in,
        length-moved,
      );
      reach = λ s h.
          let below : s < last = omega (arith, length-moved) in
          rw (key-take last moved_orders s below) (reach_moved s below);
      once = λ a b ha hb two q. ground (
        arith,
        at-moved a,
        at-moved b,
        at-m,
        ix.once a b,
        ix.once m a,
        ix.once m b,
        erased_no_slot a ha,
        erased_no_slot b hb,
        at-set index p 1 a p_in,
        at-set index p 1 b p_in,
      );
      live = λ a ha two. ground (arith, at-moved a, at-m, length-moved, ix.live a, ix.once m a);
      distinct = λ s t hs' ht q. ground (
        arith,
        length-moved,
        key-take last moved_orders s,
        key-take last moved_orders t,
        key-moved s,
        key-moved t,
        ix.distinct s t,
        ix.distinct last s,
        ix.distinct last t,
      );
    }

-- ===== src/Oms/Oms/Keep.antt =====
-- Writing, appending and reclaiming keep the invariant of the order store.
use market_microstructure_en.Base.{
  ℕ, ◌+◌, ◌-◌, ◌≤◌, ◌<◌, ◌≡◌, ◌≢◌, refl, sym, ◌∙◌, arith, ltb, ◌==◌, if◌then◌else◌, List, [], ◌∷◌,
  get_or, set, length, length-set, Bool-cases, inl, inr, some, take, length-take, length-append,
}
use market_microstructure_en.Exec.Types.{Order, default_order}
use market_microstructure_en.Oms.Index.{index_probe_find}
use market_microstructure_en.Oms.Index.Mask.{pow2}
use market_microstructure_en.Oms.Index.Indexed.{Indexed, key, append-Indexed}
use market_microstructure_en.Oms.Index.Reclaim.{
  drop_last-Indexed, find_moved, swap-Indexed, key-set,
}
use market_microstructure_en.Oms.Index.Rehash.{rehash-Indexed}
use market_microstructure_en.Oms.Oms.{
  Oms, probe_find, order_at, write, rehash, rehash_if_worn, erase_entry, shrink, append_order,
  swap_last, reclaim,
}
use market_microstructure_en.Oms.Oms.Inv.{Inv, find_slot-live}

-- A write that leaves the reference of its slot as it was.
pub write-Indexed :
    (k : ℕ) (orders : List Order) (index : List ℕ) (slot : ℕ) (order : Order)
    → slot < length orders
    → order.ref ≡ key orders slot
    → Indexed k orders index
    → Indexed k (set orders slot order) index
write-Indexed k orders index slot order h e ix = record {
  size_ok = ix.size_ok;
  used = ix.used ∙ sym (length-set orders slot order);
  reach = λ s hs. rw (same s) (ix.reach s (omega (arith, length-set orders slot order)));
  once = ix.once;
  live = rw (length-set orders slot order) ix.live;
  distinct = λ s t hs ht q.
      ix.distinct s t (omega (arith, length-set orders slot order))
        (omega (arith, length-set orders slot order)) (sym (same s) ∙ q ∙ same t);
}
  where
    same : (s : ℕ) → key (set orders slot order) s ≡ key orders s
    same s = ground (arith, key-set orders slot s order h)

pub write-Inv :
    (o : Oms) (slot : ℕ) (order : Order)
    → slot < length o.orders
    → order.ref ≡ key o.orders slot
    → Inv o
    → Inv (write o slot order)
unfolding write
write-Inv o slot order h e v = record {
  width = v.width;
  pow2_ok = v.pow2_ok;
  room = v.room;
  narrow = v.narrow;
  bounded = omega (arith, v.bounded, length-set o.orders slot order);
  indexed = write-Indexed v.width o.orders o.index slot order h e v.indexed;
}

pub append_order-Inv :
    (o : Oms) (order : Order)
    → Inv o
    → length o.orders < o.capacity
    → ((s : ℕ) → s < length o.orders → key o.orders s ≢ order.ref)
    → Inv (append_order o order)
unfolding append_order
append_order-Inv o order v room fresh = record {
  width = v.width;
  pow2_ok = v.pow2_ok;
  room = v.room;
  narrow = v.narrow;
  bounded = omega (arith, length-append o.orders (order ∷ []));
  indexed = rw v.pow2_ok (
      append-Indexed v.width o.orders o.index o.tombstones order v.indexed (omega (arith, v.room))
        fresh);
}

rehash-Inv : (o : Oms) → Inv o → Inv (rehash o)
unfolding rehash
rehash-Inv o v = record {
  width = v.width;
  pow2_ok = v.pow2_ok;
  room = v.room;
  narrow = v.narrow;
  bounded = v.bounded;
  indexed =
      rw v.pow2_ok
        (rehash-Indexed v.width o.orders (omega (arith, v.room, v.bounded)) v.indexed.distinct);
}

-- The live orders after the reclaim of a slot: the last one moves into it.
unfoldable pub swap_remove : List Order → ℕ → List Order
swap_remove orders slot =
    let last = length orders - 1 in
    take last (if slot == last then orders else set orders slot (get_or orders last default_order))

orders_removed :
    (o : Oms) (slot : ℕ)
    → (shrink (swap_last (erase_entry o slot) slot)).orders ≡ swap_remove o.orders slot
unfolding shrink swap_last erase_entry swap_remove
orders_removed o slot = elim (Bool-cases (slot == (length o.orders - 1))) [
  | inl e ↦ rw e
  | inr e ↦ rw (e, length-set o.orders slot (get_or o.orders (length o.orders - 1) default_order))
]

orders-rehash_if_worn : (o : Oms) → (rehash_if_worn o).orders ≡ o.orders
unfolding rehash_if_worn rehash
orders-rehash_if_worn o = ground arith

-- What `reclaim` leaves of the live orders.
pub orders-reclaim : (o : Oms) (slot : ℕ) → (reclaim o slot).orders ≡ swap_remove o.orders slot
unfolding reclaim
orders-reclaim o slot =
    orders-rehash_if_worn (shrink (swap_last (erase_entry o slot) slot)) ∙ orders_removed o slot

removed : Oms → ℕ → Oms
removed o slot = shrink (swap_last (erase_entry o slot) slot)

module _ (o : Oms) (slot p : ℕ) (found : probe_find o (key o.orders slot) ≡ some p) where
  index_last : slot ≡ length o.orders - 1 → (removed o slot).index ≡ set o.index p 1
  unfolding removed shrink swap_last erase_entry
  index_last e = ground arith

  index_moved :
      (m : ℕ)
      → slot ≢ length o.orders - 1
      → index_probe_find
          (set o.orders slot (get_or o.orders (length o.orders - 1) default_order))
          (set o.index p 1)
          o.index_capacity
          (key (set o.orders slot (get_or o.orders (length o.orders - 1) default_order)) slot)
        ≡ some m
      → (removed o slot).index ≡ set (set o.index p 1) m (slot + 2)
  unfolding removed shrink swap_last erase_entry
  index_moved m ne e = ground arith

removed-Indexed :
    (o : Oms) (slot : ℕ) (v : Inv o)
    → slot < length o.orders
    → Indexed v.width (swap_remove o.orders slot) (removed o slot).index
unfolding swap_remove
removed-Indexed o slot v h =
    let (p, found, hp, hv, _) = find_slot-live o slot v h in
    let hp' : p < pow2 v.width = omega (arith, v.pow2_ok) in
    elim (Bool-cases (slot == (length o.orders - 1))) [
      | inl e ↦
          let last : slot ≡ length o.orders - 1 = ground arith in
          rw (e, index_last o slot p found last)
            (drop_last-Indexed v.width o.orders o.index slot p v.indexed h hp' hv last)
      | inr e ↦
          let ne : slot ≢ length o.orders - 1 = ground arith in
          let (m, moved, hm, vm) =
            find_moved v.width o.orders o.index slot p v.indexed h hp' hv ne in
          rw (e, index_moved o slot p found m ne (rw v.pow2_ok moved))
            (swap-Indexed v.width o.orders o.index slot p v.indexed h hp' hv m ne hm vm)
    ]

shape_removed :
    (o : Oms) (slot : ℕ)
    → ((removed o slot).capacity ≡ o.capacity)
      × ((removed o slot).index_capacity ≡ o.index_capacity)
unfolding removed shrink swap_last erase_entry
shape_removed o slot = ground arith

length-swap_remove-le :
    (orders : List Order) (slot : ℕ) → length (swap_remove orders slot) ≤ length orders
unfolding swap_remove
length-swap_remove-le orders slot = omega (
  arith,
  length-take (length orders - 1) (
      if slot == (length orders - 1)
      then orders
      else set orders slot (get_or orders (length orders - 1) default_order)),
)

remove-Inv : (o : Oms) (slot : ℕ) → slot < length o.orders → Inv o → Inv (removed o slot)
unfolding removed
remove-Inv o slot h v = record {
  width = v.width;
  pow2_ok = (shape_removed o slot).1 ∙ v.pow2_ok;
  room = rw (shape_removed o slot).0 v.room;
  narrow = rw (shape_removed o slot).0 v.narrow;
  bounded =
      rw (orders_removed o slot, (shape_removed o slot).0)
        (omega (arith, v.bounded, length-swap_remove-le o.orders slot));
  indexed = rw (orders_removed o slot) (removed-Indexed o slot v h);
}

rehash_if_worn-Inv : (o : Oms) → Inv o → Inv (rehash_if_worn o)
unfolding rehash_if_worn
rehash_if_worn-Inv o v = elim (Bool-cases (ltb o.capacity o.tombstones)) [
  | inl e ↦ rw e (rehash-Inv o v)
  | inr e ↦ rw e v
]

pub reclaim-Inv : (o : Oms) (slot : ℕ) → slot < length o.orders → Inv o → Inv (reclaim o slot)
unfolding reclaim removed
reclaim-Inv o slot h v = rehash_if_worn-Inv (removed o slot) (remove-Inv o slot h v)

pub order_at-ref : (o : Oms) (slot : ℕ) → (order_at o slot).ref ≡ key o.orders slot
unfolding order_at
order_at-ref o slot = refl

-- ===== src/Oms/Oms/Refine.antt =====
-- The order store as a map from references to orders: each operation changes the one entry it names.
use market_microstructure_en.Oms.Index.Rehash.{Distinct}
use market_microstructure_en.Base.{
  ℕ, ◌<◌, ◌≡◌, ◌≢◌, refl, sym, ap, ◌∙◌, arith, leb, true, false, if◌then◌else◌, length, Bool-cases,
  inl, inr, none, some, get_or-set_self,
}
use market_microstructure_en.Base.Int.{ℤ}
use market_microstructure_en.Exec.Types.{
  BrokerOrderRef, Order, default_order, OrderState, is_terminal, ref_eq,
}
use market_microstructure_en.Oms.OrderState.{legal}
use market_microstructure_en.Oms.Index.Indexed.{key}
use market_microstructure_en.Oms.Oms.{
  Oms, order_at, find, size, write, append_order, reclaim, create, mark_state, reclaim_if,
  change_state, transition,
}
use market_microstructure_en.Oms.Oms.Inv.{Inv, lookup, find_slot_cases, find-lookup}
use market_microstructure_en.Oms.Oms.Keep.{swap_remove, orders-reclaim, reclaim-Inv, order_at-ref}
use market_microstructure_en.Oms.Oms.Steps.{
  change_state-Inv, created, create-Inv, with_order, mark_state-Inv, length-mark_state,
}
use market_microstructure_en.Oms.Oms.Removal.{
  lookup_at, lookup-swap_remove, lookup-set, lookup-append,
}

abbrev pub in_state : Order → OrderState → Order
in_state order next = record order { state = next }

-- `find` of a slot's reference returns the order in the slot.
pub find_of_slot :
    (o : Oms) (s : ℕ) → Inv o → s < length o.orders → find o (key o.orders s) ≡ some (order_at o s)
unfolding order_at
find_of_slot o s v h =
    find-lookup o (key o.orders s) v
    ∙ lookup_at (key o.orders s) o.orders s v.indexed.distinct h refl

lookup-mark_state :
    (o : Oms) (s : ℕ) (next : OrderState) (r : BrokerOrderRef)
    → Inv o
    → s < length o.orders
    → lookup r (mark_state o s next).orders ≡ (
        if ref_eq (key o.orders s) r
        then some (in_state (order_at o s) next)
        else lookup r o.orders)
unfolding mark_state write
lookup-mark_state o s next r v h =
    lookup-set r o.orders s (record (order_at o s) { state = next }) v.indexed.distinct h
      (order_at-ref o s)

key-mark_state :
    (o : Oms) (s : ℕ) (next : OrderState)
    → s < length o.orders
    → key (mark_state o s next).orders s ≡ key o.orders s
unfolding mark_state write
key-mark_state o s next h =
    ap (λ (x : Order). x.ref) (get_or-set_self o.orders s _ default_order h) ∙ order_at-ref o s

change_state-terminal :
    (o : Oms) (s : ℕ) (next : OrderState)
    → is_terminal next ≡ true
    → change_state o s next ≡ reclaim (mark_state o s next) s
unfolding change_state reclaim_if
change_state-terminal o s next e = rw (e, change_state)

change_state-live :
    (o : Oms) (s : ℕ) (next : OrderState)
    → is_terminal next ≡ false
    → change_state o s next ≡ mark_state o s next
unfolding change_state reclaim_if
change_state-live o s next e = rw (e, change_state)

-- The change of one order's state, seen through lookups: a terminal state removes the order.
lookup-change_state :
    (o : Oms) (s : ℕ) (next : OrderState) (r : BrokerOrderRef)
    → Inv o
    → s < length o.orders
    → lookup r (change_state o s next).orders ≡ (
        if ref_eq (key o.orders s) r
        then (if is_terminal next then none else some (in_state (order_at o s) next))
        else lookup r o.orders)
lookup-change_state o s next r v h = elim (Bool-cases (is_terminal next)) [
  | inl e ↦
      rw (change_state-terminal o s next e, e, orders-reclaim m s)
        (lookup-swap_remove r m.orders s mv.indexed.distinct gone-Distinct hm
          ∙ rw (key-mark_state o s next h, lookup-mark_state o s next r v h)
              (elim (Bool-cases (ref_eq (key o.orders s) r)) [ inl q ↦ rw q | inr q ↦ rw q ]))
  | inr e ↦ rw (change_state-live o s next e, e) (lookup-mark_state o s next r v h)
]
  where
    m : Oms
    m = mark_state o s next

    mv : Inv m
    mv = mark_state-Inv o s next h v

    hm : s < length m.orders
    hm = omega (arith, length-mark_state o s next)

    gone-Distinct : Distinct (swap_remove m.orders s)
    gone-Distinct = rw (← orders-reclaim m s) (reclaim-Inv m s hm mv).indexed.distinct

-- A transition that is legal for the order found: the order takes the new state, or leaves the
-- store if that state is terminal; every other order is found as before.
pub find-transition :
    (o : Oms) (ref : BrokerOrderRef) (next : OrderState) (order : Order)
    → Inv o
    → find o ref ≡ some order
    → legal order.state next ≡ true
    → ((transition o ref next).0 ≡ true)
      × ((r : BrokerOrderRef)
          → find (transition o ref next).1 r ≡ (
              if ref_eq ref r
              then (if is_terminal next then none else some (in_state order next))
              else find o r))
unfolding transition
find-transition o ref next order v found ok = elim (find_slot_cases o ref v) [
  | inr (_, _, missing) ↦ absurd (cc (find-lookup o ref v))
  | inl (s, h, hk, slot, hl) ↦
      let same : order_at o s ≡ order = cc (find-lookup o ref v) in
      let way : transition o ref next ≡ (true, change_state o s next) =
        rw (slot, transition) (rw (same, ok)) in
      rw way (
        refl,
        λ r.
            find-lookup (change_state o s next) r (change_state-Inv o s next h v)
            ∙ lookup-change_state o s next r v h
            ∙ rw (same, hk, find-lookup o r v),
      )
]

-- A transition that is illegal for the order found, or of an unknown reference, changes nothing.
pub transition_refused :
    (o : Oms) (ref : BrokerOrderRef) (next : OrderState)
    → Inv o
    → ((order : Order) → find o ref ≡ some order → legal order.state next ≡ false)
    → transition o ref next ≡ (false, o)
unfolding transition
transition_refused o ref next v refuse = elim (find_slot_cases o ref v) [
  | inr (_, missing, _) ↦ rw (missing, transition)
  | inl (s, h, hk, slot, hl) ↦
      rw (slot, transition) (rw (refuse (order_at o s) (find-lookup o ref v ∙ hl)))
]

create-fresh :
    (o : Oms) (ref : BrokerOrderRef) (symbol : ℕ) (volume : ℤ)
    → find o ref ≡ none
    → length o.orders < o.capacity
    → create o ref symbol volume ≡ (true, with_order o (created ref symbol volume) volume)
unfolding create
create-fresh o ref symbol volume missing room =
    let below : leb o.capacity (length o.orders) ≡ false = ground arith in
    rw (missing, create) (rw below)

-- A created order is found, in state pending_send with nothing filled; others as before.
pub find-create :
    (o : Oms) (ref : BrokerOrderRef) (symbol : ℕ) (volume : ℤ)
    → Inv o
    → find o ref ≡ none
    → size o < o.capacity
    → ((create o ref symbol volume).0 ≡ true)
      × ((r : BrokerOrderRef)
          → find (create o ref symbol volume).1 r
            ≡ (if ref_eq ref r then some (created ref symbol volume) else find o r))
unfolding size append_order
find-create o ref symbol volume v missing room = rw way (
  refl,
  λ r.
      find-lookup made r made-Inv
      ∙ lookup-append r o.orders (created ref symbol volume) fresh
      ∙ rw (find-lookup o r v),
)
  where
    absent : lookup ref o.orders ≡ none
    absent = sym (find-lookup o ref v) ∙ missing

    fresh : (s : ℕ) → s < length o.orders → key o.orders s ≢ ref
    fresh s h hk = cc (absent, lookup_at ref o.orders s v.indexed.distinct h hk)

    way : create o ref symbol volume ≡ (true, with_order o (created ref symbol volume) volume)
    way = create-fresh o ref symbol volume missing room

    made : Oms
    made = with_order o (created ref symbol volume) volume

    made-Inv : Inv made
    made-Inv = rw way at (create-Inv o ref symbol volume v)

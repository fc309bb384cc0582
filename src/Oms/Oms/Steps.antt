-- ===== src/Oms/Oms/Steps.antt =====
-- What each operation of the order store does, case by case, and that all keep the invariant.
use market_microstructure_en.Base.{
  ℕ, ◌<◌, ◌≡◌, ◌≢◌, refl, arith, leb, ◌&&◌, ◌||◌, Bool, true, false, if◌then◌else◌, List, [], ◌∷◌,
  get_or, length, length-set, Bool-cases, inl, inr, ◌⊎◌, is_some,
}
use market_microstructure_en.Base.Int.{ℤ, pos, ◌+ℤ◌, ◌==ℤ◌, ◌≤ℤ◌, ◌<ℤ◌}
use market_microstructure_en.Exec.Types.{
  BrokerOrderRef, Order, default_order, OrderState, is_terminal, reserves_exposure, is_unknown,
  unknown, pending_send, remaining, filled, partially_filled,
}
use market_microstructure_en.Oms.OrderState.{legal}
use market_microstructure_en.Oms.Index.Indexed.{key}
use market_microstructure_en.Oms.Oms.{
  Oms, order_at, find, write, append_order, restore, create, mark_state, reclaim_if, change_state,
  transition, fill, recover_fill, mark_unknown_on_restart, resolve_unknown, add_fill, bad_fill,
  bad_volumes,
}
use market_microstructure_en.Oms.Oms.Inv.{Inv, lookup_cases, find_slot_cases, find-lookup}
use market_microstructure_en.Oms.Oms.Keep.{
  write-Indexed, write-Inv, append_order-Inv, reclaim-Inv, order_at-ref,
}

pub mark_state-Inv :
    (o : Oms) (slot : ℕ) (next : OrderState)
    → slot < length o.orders
    → Inv o
    → Inv (mark_state o slot next)
unfolding mark_state write order_at
mark_state-Inv o slot next h v = record {
  width = v.width;
  pow2_ok = v.pow2_ok;
  room = v.room;
  narrow = v.narrow;
  bounded = omega (arith, v.bounded, length-set o.orders slot marked);
  indexed = write-Indexed v.width o.orders o.index slot marked h refl v.indexed;
}
  where
    marked : Order
    marked = record (get_or o.orders slot default_order) { state = next }

reclaim_if-Inv :
    (b : Bool) (o : Oms) (slot : ℕ) → slot < length o.orders → Inv o → Inv (reclaim_if b o slot)
unfolding reclaim_if
reclaim_if-Inv true o slot h v = reclaim-Inv o slot h v
reclaim_if-Inv false o slot h v = v

pub length-mark_state :
    (o : Oms) (slot : ℕ) (next : OrderState)
    → length (mark_state o slot next).orders ≡ length o.orders
unfolding mark_state write
length-mark_state o slot next = length-set o.orders slot (record (order_at o slot) { state = next })

pub change_state-Inv :
    (o : Oms) (slot : ℕ) (next : OrderState)
    → slot < length o.orders
    → Inv o
    → Inv (change_state o slot next)
unfolding change_state
change_state-Inv o slot next h v =
    reclaim_if-Inv (is_terminal next) (mark_state o slot next) slot
      (omega (arith, length-mark_state o slot next)) (mark_state-Inv o slot next h v)

-- What a transition does: nothing, or the change of state of the slot that holds the reference.
pub transition_cases {ℓ} :
    (P : Bool × Oms → Type ℓ) (o : Oms) (ref : BrokerOrderRef) (next : OrderState)
    → Inv o
    → P (false, o)
    → ((s : ℕ)
        → s < length o.orders
        → key o.orders s ≡ ref
        → legal (order_at o s).state next ≡ true
        → P (true, change_state o s next))
    → P (transition o ref next)
unfolding transition
transition_cases P o ref next v refused done = elim (find_slot_cases o ref v) [
  | inl (s, h, hk, found, _) ↦
      rw (found, transition)
        (elim (Bool-cases (legal (order_at o s).state next)) [
          | inl e ↦ rw e (done s h hk e)
          | inr e ↦ rw e refused
        ])
  | inr (_, missing, _) ↦ rw (missing, transition) refused
]

-- `transition` keeps the invariant.
pub transition-Inv :
    (o : Oms) (ref : BrokerOrderRef) (next : OrderState) → Inv o → Inv (transition o ref next).1
transition-Inv o ref next v =
    transition_cases (λ r. Inv r.1) o ref next v v (λ s h hk e. change_state-Inv o s next h v)

-- Whether a slot's order takes a fill of this volume.
abbrev pub Fits : Order → ℤ → Type 0
Fits order volume = bad_fill order volume ≡ false

-- The order store with a fill booked on the order of a slot.
abbrev pub booked : Oms → ℕ → ℤ → Oms
booked o s volume = write o s (add_fill (order_at o s) volume)

pub booked-Inv :
    (o : Oms) (s : ℕ) (volume : ℤ) → s < length o.orders → Inv o → Inv (booked o s volume)
unfolding add_fill
booked-Inv o s volume h v = write-Inv o s (add_fill (order_at o s) volume) h (order_at-ref o s) v

pub fill_cases {ℓ} :
    (P : Bool × Oms → Type ℓ) (o : Oms) (ref : BrokerOrderRef) (volume : ℤ)
    → Inv o
    → P (false, o)
    → ((s : ℕ)
        → s < length o.orders
        → key o.orders s ≡ ref
        → Fits (order_at o s) volume
        → P (
            transition (booked o s volume) ref (
              if remaining (add_fill (order_at o s) volume) ==ℤ pos 0
              then filled
              else partially_filled)))
    → P (fill o ref volume)
unfolding fill
fill_cases P o ref volume v refused done = elim (find_slot_cases o ref v) [
  | inl (s, h, hk, found, _) ↦
      rw (found, fill)
        (elim (Bool-cases (bad_fill (order_at o s) volume)) [
          | inl e ↦ rw e refused
          | inr e ↦ rw e (done s h hk e)
        ])
  | inr (_, missing, _) ↦ rw (missing, fill) refused
]

-- `fill` keeps the invariant.
pub fill-Inv : (o : Oms) (ref : BrokerOrderRef) (volume : ℤ) → Inv o → Inv (fill o ref volume).1
fill-Inv o ref volume v =
    fill_cases (λ r. Inv r.1) o ref volume v v
      (λ s h hk fits. transition-Inv (booked o s volume) ref _ (booked-Inv o s volume h v))

pub recover_fill_cases {ℓ} :
    (P : Bool × Oms → Type ℓ) (o : Oms) (ref : BrokerOrderRef) (volume : ℤ)
    → Inv o
    → P (false, o)
    → ((s : ℕ)
        → s < length o.orders
        → key o.orders s ≡ ref
        → Fits (order_at o s) volume
        → P (true, booked o s volume))
    → P (recover_fill o ref volume)
unfolding recover_fill
recover_fill_cases P o ref volume v refused done = elim (find_slot_cases o ref v) [
  | inl (s, h, hk, found, _) ↦
      rw (found, recover_fill)
        (elim (Bool-cases (bad_fill (order_at o s) volume)) [
          | inl e ↦ rw e refused
          | inr e ↦ rw e (done s h hk e)
        ])
  | inr (_, missing, _) ↦ rw (missing, recover_fill) refused
]

-- `recover_fill` keeps the invariant.
pub recover_fill-Inv :
    (o : Oms) (ref : BrokerOrderRef) (volume : ℤ) → Inv o → Inv (recover_fill o ref volume).1
recover_fill-Inv o ref volume v =
    recover_fill_cases (λ r. Inv r.1) o ref volume v v (λ s h hk fits. booked-Inv o s volume h v)

abbrev pub set_unknown : Oms → ℕ → Oms
set_unknown o s = write o s (record (order_at o s) { state = unknown })

pub mark_unknown_cases {ℓ} :
    (P : Bool × Oms → Type ℓ) (o : Oms) (ref : BrokerOrderRef)
    → Inv o
    → P (false, o)
    → ((s : ℕ)
        → s < length o.orders
        → key o.orders s ≡ ref
        → is_terminal (order_at o s).state ≡ false
        → P (true, set_unknown o s))
    → P (mark_unknown_on_restart o ref)
unfolding mark_unknown_on_restart
mark_unknown_cases P o ref v refused done = elim (find_slot_cases o ref v) [
  | inl (s, h, hk, found, _) ↦
      rw (found, mark_unknown_on_restart)
        (elim (Bool-cases (is_terminal (order_at o s).state)) [
          | inl e ↦ rw e refused
          | inr e ↦ rw e (done s h hk e)
        ])
  | inr (_, missing, _) ↦ rw (missing, mark_unknown_on_restart) refused
]

-- `mark_unknown_on_restart` keeps the invariant.
pub mark_unknown-Inv :
    (o : Oms) (ref : BrokerOrderRef) → Inv o → Inv (mark_unknown_on_restart o ref).1
mark_unknown-Inv o ref v =
    mark_unknown_cases (λ r. Inv r.1) o ref v v
      (λ s h hk e. write-Inv o s (record (order_at o s) { state = unknown }) h (order_at-ref o s) v)

pub resolve_unknown_cases {ℓ} :
    (P : Bool × Oms → Type ℓ) (o : Oms) (ref : BrokerOrderRef) (terminal : OrderState)
    → Inv o
    → P (false, o)
    → (is_terminal terminal ≡ true → P (transition o ref terminal))
    → P (resolve_unknown o ref terminal)
unfolding resolve_unknown
resolve_unknown_cases P o ref terminal v refused done = elim (find_slot_cases o ref v) [
  | inl (s, h, hk, found, _) ↦
      rw (found, resolve_unknown)
        (elim (Bool-cases (is_unknown (order_at o s).state && is_terminal terminal)) [
          | inl e ↦ rw e (done (ground arith))
          | inr e ↦ rw e refused
        ])
  | inr (_, missing, _) ↦ rw (missing, resolve_unknown) refused
]

-- `resolve_unknown` keeps the invariant.
pub resolve_unknown-Inv :
    (o : Oms) (ref : BrokerOrderRef) (terminal : OrderState)
    → Inv o
    → Inv (resolve_unknown o ref terminal).1
resolve_unknown-Inv o ref terminal v =
    resolve_unknown_cases (λ r. Inv r.1) o ref terminal v v (λ _. transition-Inv o ref terminal v)

-- The order that `create` appends.
abbrev pub created : BrokerOrderRef → ℕ → ℤ → Order
created ref symbol volume = record default_order {
  ref = ref;
  symbol_id = symbol;
  requested_volume = volume;
  state = pending_send;
}

-- A new order behind the live ones, with what it reserves.
abbrev pub with_order : Oms → Order → ℤ → Oms
with_order o order volume = record (append_order o order) {
  reserved = (append_order o order).reserved +ℤ volume;
}

pub with_order-Inv :
    (o : Oms) (order : Order) (volume : ℤ)
    → Inv o
    → length o.orders < o.capacity
    → ((s : ℕ) → s < length o.orders → key o.orders s ≢ order.ref)
    → Inv (with_order o order volume)
with_order-Inv o order volume v room fresh =
    let v' = append_order-Inv o order v room fresh in
    record {
      width = v'.width;
      pow2_ok = v'.pow2_ok;
      room = v'.room;
      narrow = v'.narrow;
      bounded = v'.bounded;
      indexed = v'.indexed;
    }

-- Either no live order has the reference and there is room, or the guards of an insertion refuse.
vacant_cases :
    (o : Oms) (ref : BrokerOrderRef)
    → Inv o
    → ((length o.orders < o.capacity)
        × ((s : ℕ) → s < length o.orders → key o.orders s ≢ ref)
        × ((is_some (find o ref) || leb o.capacity (length o.orders)) ≡ false))
      ⊎ ((is_some (find o ref) || leb o.capacity (length o.orders)) ≡ true)
vacant_cases o ref v = elim (lookup_cases ref o.orders) [
  | inl (s, h, hk, hl) ↦ inr (rw (find-lookup o ref v, hl))
  | inr (absent, hl) ↦ elim (Bool-cases (leb o.capacity (length o.orders))) [
    | inl full ↦ inr (rw (find-lookup o ref v, hl, full))
    | inr room ↦ inl (ground arith, absent, rw (find-lookup o ref v, hl, room))
  ]
]

pub create_cases {ℓ} :
    (P : Bool × Oms → Type ℓ) (o : Oms) (ref : BrokerOrderRef) (symbol : ℕ) (volume : ℤ)
    → Inv o
    → P (false, o)
    → (length o.orders < o.capacity
        → ((s : ℕ) → s < length o.orders → key o.orders s ≢ ref)
        → P (true, with_order o (created ref symbol volume) volume))
    → P (create o ref symbol volume)
unfolding create
create_cases P o ref symbol volume v refused done = elim (vacant_cases o ref v) [
  | inl (room, fresh, open_way) ↦ rw (open_way, create) (done room fresh)
  | inr shut ↦ rw (shut, create) refused
]

-- `create` keeps the invariant.
pub create-Inv :
    (o : Oms) (ref : BrokerOrderRef) (symbol : ℕ) (volume : ℤ)
    → Inv o
    → Inv (create o ref symbol volume).1
create-Inv o ref symbol volume v =
    create_cases (λ r. Inv r.1) o ref symbol volume v v
      (λ room fresh. with_order-Inv o (created ref symbol volume) volume v room fresh)

-- The volumes that `restore` takes.
pub bad_volumes_false :
    (order : Order)
    → bad_volumes order ≡ false
    → (pos 0 <ℤ order.requested_volume)
      × (pos 0 ≤ℤ order.filled_volume)
      × (order.filled_volume ≤ℤ order.requested_volume)
unfolding bad_volumes
bad_volumes_false order h = ground arith

abbrev pub restored : Oms → Order → Oms
restored o order = record (append_order o order) {
  reserved =
      if reserves_exposure order.state
      then (append_order o order).reserved +ℤ order.requested_volume
      else (append_order o order).reserved;
}

pub restore_cases {ℓ} :
    (P : Bool × Oms → Type ℓ) (o : Oms) (order : Order)
    → Inv o
    → P (false, o)
    → (length o.orders < o.capacity
        → ((s : ℕ) → s < length o.orders → key o.orders s ≢ order.ref)
        → bad_volumes order ≡ false
        → P (true, restored o order))
    → P (restore o order)
unfolding restore
restore_cases P o order v refused done = elim (vacant_cases o order.ref v) [
  | inl (room, fresh, open_way) ↦
      rw (open_way, restore)
        (elim (Bool-cases (bad_volumes order)) [
          | inl e ↦ rw e refused
          | inr e ↦ rw e (done room fresh e)
        ])
  | inr shut ↦ rw (shut, restore) refused
]

pub restored-Inv :
    (o : Oms) (order : Order)
    → Inv o
    → length o.orders < o.capacity
    → ((s : ℕ) → s < length o.orders → key o.orders s ≢ order.ref)
    → Inv (restored o order)
restored-Inv o order v room fresh =
    let v' = append_order-Inv o order v room fresh in
    record {
      width = v'.width;
      pow2_ok = v'.pow2_ok;
      room = v'.room;
      narrow = v'.narrow;
      bounded = v'.bounded;
      indexed = v'.indexed;
    }

-- `restore` keeps the invariant.
pub restore-Inv : (o : Oms) (order : Order) → Inv o → Inv (restore o order).1
restore-Inv o order v =
    restore_cases (λ r. Inv r.1) o order v v (λ room fresh _. restored-Inv o order v room fresh)

-- One call of the order store's interface.
pub data Call : Type 0 where
  creates : BrokerOrderRef → ℕ → ℤ → Call
  restores : Order → Call
  transitions : BrokerOrderRef → OrderState → Call
  fills : BrokerOrderRef → ℤ → Call
  recovers_fill : BrokerOrderRef → ℤ → Call
  marks_unknown : BrokerOrderRef → Call
  resolves : BrokerOrderRef → OrderState → Call

unfoldable pub step : Oms → Call → Bool × Oms
step o (creates ref symbol volume) = create o ref symbol volume
step o (restores order) = restore o order
step o (transitions ref next) = transition o ref next
step o (fills ref volume) = fill o ref volume
step o (recovers_fill ref volume) = recover_fill o ref volume
step o (marks_unknown ref) = mark_unknown_on_restart o ref
step o (resolves ref terminal) = resolve_unknown o ref terminal

unfoldable pub run : Oms → List Call → Oms
run o [] = o
run o (c ∷ cs) = run (step o c).1 cs

pub step-Inv : (o : Oms) (c : Call) → Inv o → Inv (step o c).1
unfolding step
step-Inv o (creates ref symbol volume) v = create-Inv o ref symbol volume v
step-Inv o (restores order) v = restore-Inv o order v
step-Inv o (transitions ref next) v = transition-Inv o ref next v
step-Inv o (fills ref volume) v = fill-Inv o ref volume v
step-Inv o (recovers_fill ref volume) v = recover_fill-Inv o ref volume v
step-Inv o (marks_unknown ref) v = mark_unknown-Inv o ref v
step-Inv o (resolves ref terminal) v = resolve_unknown-Inv o ref terminal v

-- Any sequence of calls, accepted or refused, keeps the invariant.
pub run-Inv : (o : Oms) (cs : List Call) → Inv o → Inv (run o cs)
unfolding run
run-Inv o [] v = v
run-Inv o (c ∷ cs) v = run-Inv (step o c).1 cs (step-Inv o c v)

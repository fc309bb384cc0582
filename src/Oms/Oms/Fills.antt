-- ===== src/Oms/Oms/Fills.antt =====
-- What `fill` does to the order store as a map from references to orders.
use market_microstructure_en.Base.{
  ℕ, ◌<◌, ◌≡◌, refl, ◌∙◌, true, false, if◌then◌else◌, length, Bool-cases, inl, inr, none, some,
}
use market_microstructure_en.Base.Int.{ℤ, pos, ◌+ℤ◌, ◌==ℤ◌}
use market_microstructure_en.Exec.Types.{
  BrokerOrderRef, Order, OrderState, is_terminal, remaining, filled, partially_filled, ref_eq,
  ref_eq_refl,
}
use market_microstructure_en.Oms.OrderState.{legal}
use market_microstructure_en.Oms.Index.Indexed.{key}
use market_microstructure_en.Oms.Oms.{
  Oms, order_at, find, write, transition, fill, add_fill, bad_fill,
}
use market_microstructure_en.Oms.Oms.Inv.{Inv, find_slot_cases, find-lookup}
use market_microstructure_en.Oms.Oms.Keep.{write-Inv, order_at-ref}
use market_microstructure_en.Oms.Oms.Steps.{booked, booked-Inv}
use market_microstructure_en.Oms.Oms.Removal.{lookup-set}
use market_microstructure_en.Oms.Oms.Refine.{in_state, find-transition, transition_refused}

add_fill-ref :
    (o : Oms) (s : ℕ) (volume : ℤ) → (add_fill (order_at o s) volume).ref ≡ key o.orders s
unfolding add_fill
add_fill-ref o s volume = order_at-ref o s

add_fill-state : (order : Order) (volume : ℤ) → (add_fill order volume).state ≡ order.state
unfolding add_fill
add_fill-state order volume = refl

pub find-write :
    (o : Oms) (s : ℕ) (x : Order) (r : BrokerOrderRef)
    → Inv o
    → s < length o.orders
    → x.ref ≡ key o.orders s
    → find (write o s x) r ≡ (if ref_eq (key o.orders s) r then some x else find o r)
unfolding write
find-write o s x r v h e =
    find-lookup (write o s x) r (write-Inv o s x h e v)
    ∙ lookup-set r o.orders s x v.indexed.distinct h e
    ∙ rw (find-lookup o r v)

-- The order once a volume more is filled, and the state that the fill moves it to.
abbrev pub with_fill : Order → ℤ → Order
with_fill order volume = record order { filled_volume = order.filled_volume +ℤ volume }

abbrev pub filled_state : Order → ℤ → OrderState
filled_state order volume =
    if remaining (with_fill order volume) ==ℤ pos 0 then filled else partially_filled

-- The slot of a reference that is found, and what `fill` does there.
fill_way :
    (o : Oms) (ref : BrokerOrderRef) (volume : ℤ) (order : Order)
    → Inv o
    → find o ref ≡ some order
    → bad_fill order volume ≡ false
    → (s : ℕ) × (s < length o.orders)
      × (key o.orders s ≡ ref)
      × (fill o ref volume ≡ transition (booked o s volume) ref (filled_state order volume))
      × (find (booked o s volume) ref ≡ some (add_fill order volume))
      × (order_at o s ≡ order)
unfolding fill add_fill
fill_way o ref volume order v found fits = elim (find_slot_cases o ref v) [
  | inr (_, _, missing) ↦ absurd (cc (find-lookup o ref v))
  | inl (s, h, hk, slot, hl) ↦
      let same : order_at o s ≡ order = cc (find-lookup o ref v) in
      (
        s,
        h,
        hk,
        rw (slot, fill) (rw (same, fits)),
        find-write o s (add_fill (order_at o s) volume) ref v h (add_fill-ref o s volume)
            ∙ rw (same, hk, ref_eq_refl ref),
        same,
      )
]

-- A fill of a found order that its volume and state allow: the volume is booked and the order is
-- partially filled, or leaves the store if nothing remains; other orders are found as before.
pub find-fill :
    (o : Oms) (ref : BrokerOrderRef) (volume : ℤ) (order : Order)
    → Inv o
    → find o ref ≡ some order
    → bad_fill order volume ≡ false
    → legal order.state (filled_state order volume) ≡ true
    → ((fill o ref volume).0 ≡ true)
      × ((r : BrokerOrderRef)
          → find (fill o ref volume).1 r ≡ (
              if ref_eq ref r
              then (if is_terminal (filled_state order volume)
                  then none
                  else some (in_state (with_fill order volume) (filled_state order volume)))
              else find o r))
unfolding add_fill
find-fill o ref volume order v found fits ok =
    let (s, h, hk, way, now, same) = fill_way o ref volume order v found fits in
    let b : Oms = booked o s volume in
    let t =
      find-transition b ref (filled_state order volume) (add_fill order volume)
        (booked-Inv o s volume h v) now (rw (add_fill-state order volume) ok) in
    rw way (
      t.0,
      λ r.
          t.1 r
          ∙ rw (find-write o s (add_fill (order_at o s) volume) r v h (add_fill-ref o s volume), hk)
              (elim (Bool-cases (ref_eq ref r)) [ inl q ↦ rw q | inr q ↦ rw q ]),
    )

-- A fill whose volume fits but whose change of state is illegal is refused, and yet its volume is
-- booked on the order.
pub fill_refused_books :
    (o : Oms) (ref : BrokerOrderRef) (volume : ℤ) (order : Order)
    → Inv o
    → find o ref ≡ some order
    → bad_fill order volume ≡ false
    → legal order.state (filled_state order volume) ≡ false
    → ((fill o ref volume).0 ≡ false)
      × (find (fill o ref volume).1 ref ≡ some (with_fill order volume))
unfolding add_fill
fill_refused_books o ref volume order v found fits illegal =
    let (s, h, hk, way, now, same) = fill_way o ref volume order v found fits in
    let b : Oms = booked o s volume in
    let refused : transition b ref (filled_state order volume) ≡ (false, b) =
      transition_refused b ref (filled_state order volume) (booked-Inv o s volume h v) (λ x e.
        let x_is : x ≡ add_fill order volume = cc in
        rw (x_is, add_fill-state order volume) illegal) in
    rw (way, refused) (refl, now)

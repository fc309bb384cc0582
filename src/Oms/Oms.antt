-- ===== src/Oms/Oms.antt =====
-- include/oms/oms.hpp: the order store and its operations.
pub mod Inv
pub mod Keep
pub mod Steps
pub mod Removal
pub mod Refine
pub mod Fills
pub mod Reserved
pub mod Balance
use market_microstructure_en.Base.{
  ℕ, zero, suc, ◌+◌, ◌-◌, ◌*◌, ◌/◌, ◌%◌, ◌^◌, Bool, true, false, ◌&&◌, ◌||◌, not, ◌==◌, ltb, leb,
  if◌then◌else◌, List, [], ◌∷◌, ◌++◌, Option, none, some, is_some, get_or, set, replicate, length,
  take,
}
use market_microstructure_en.Base.Int.{ℤ, pos, ◌+ℤ◌, ◌-ℤ◌, ltb_ℤ, leb_ℤ, ◌==ℤ◌}
use market_microstructure_en.Exec.Types.{
  BrokerOrderRef, Order, default_order, OrderState, is_terminal, is_unknown, reserves_exposure,
  pending_send, partially_filled, filled, unknown, remaining,
}
use market_microstructure_en.Oms.OrderState.{legal}
use market_microstructure_en.Oms.Index.{
  next_pow2, index_probe_find, index_insert, reinsert_from, empty_marker, tombstone_marker,
  occupied_bias,
}

-- `orders` is `orders_[0, count_)`, the live orders; `count_` is its length. What the block holds
-- behind it is never read.
pub record Oms : Type 0 where
  pub capacity : ℕ
  pub index_capacity : ℕ
  pub orders : List Order
  pub index : List ℕ
  pub tombstones : ℕ
  pub reserved : ℤ

-- The constructor.
unfoldable pub make : ℕ → Oms
make capacity =
    let index_capacity = next_pow2 ((if capacity == 0 then 1 else capacity) * 2) in
    record {
      capacity = capacity;
      index_capacity = index_capacity;
      orders = [];
      index = replicate index_capacity empty_marker;
      tombstones = 0;
      reserved = pos 0;
    }

unfoldable pub probe_find : Oms → BrokerOrderRef → Option ℕ
probe_find o ref = index_probe_find o.orders o.index o.index_capacity ref

-- `index_[pos] - occupied_bias`
unfoldable pub slot_at : Oms → ℕ → ℕ
slot_at o p = get_or o.index p empty_marker - occupied_bias

-- `find` returns a pointer to the slot; the slot stands for it.
unfoldable pub find_slot : Oms → BrokerOrderRef → Option ℕ
unfolding slot_at
find_slot o ref = elim (probe_find o ref) [ none ↦ none | some p ↦ some (slot_at o p) ]

unfoldable pub order_at : Oms → ℕ → Order
order_at o slot = get_or o.orders slot default_order

unfoldable pub find : Oms → BrokerOrderRef → Option Order
unfolding order_at
find o ref = elim (find_slot o ref) [ none ↦ none | some slot ↦ some (order_at o slot) ]

unfoldable pub size : Oms → ℕ
size o = length o.orders

-- `orders_[slot] = order`
unfoldable pub write : Oms → ℕ → Order → Oms
write o slot order = record o { orders = set o.orders slot order }

unfoldable pub rehash : Oms → Oms
unfolding reinsert_from
rehash o =
    let (index, tombstones) =
      reinsert_from (replicate o.index_capacity empty_marker) 0 o.index_capacity o.orders 0 in
    record o { index = index; tombstones = tombstones }

-- `orders_[count_] = order; index_insert(order.ref, count_); ++count_`
unfoldable pub append_order : Oms → Order → Oms
append_order o order =
    let (index, tombstones) =
      index_insert o.index o.tombstones o.index_capacity order.ref (length o.orders) in
    record o { orders = o.orders ++ (order ∷ []); index = index; tombstones = tombstones }

-- `index_[pos] = v` at the position where a probe ended.
unfoldable pub set_index : List ℕ → Option ℕ → ℕ → List ℕ
set_index index none v = index
set_index index (some p) v = set index p v

-- The last live order moves into the vacated slot, and its index entry follows.
unfoldable pub swap_last : Oms → ℕ → Oms
unfolding set_index
swap_last o slot =
    let last = length o.orders - 1 in
    if slot == last
    then o
    else let orders = set o.orders slot (get_or o.orders last default_order) in
      let moved = (get_or orders slot default_order).ref in
      let moved_pos = index_probe_find orders o.index o.index_capacity moved in
      record o { orders = orders; index = set_index o.index moved_pos (slot + occupied_bias) }

-- The reclaimed order's index entry becomes a tombstone.
unfoldable pub erase_entry : Oms → ℕ → Oms
unfolding set_index
erase_entry o slot = record o {
  index =
      set_index o.index (probe_find o (get_or o.orders slot default_order).ref) tombstone_marker;
  tombstones = o.tombstones + 1;
}

-- `--count_`
unfoldable pub shrink : Oms → Oms
shrink o = record o { orders = take (length o.orders - 1) o.orders }

-- `if (tombstones_ > capacity_) rehash();`
unfoldable pub rehash_if_worn : Oms → Oms
rehash_if_worn o = if ltb o.capacity o.tombstones then rehash o else o

unfoldable pub reclaim : Oms → ℕ → Oms
reclaim o slot = rehash_if_worn (shrink (swap_last (erase_entry o slot) slot))

-- `o.requested_volume <= 0 || o.filled_volume < 0 || o.filled_volume > o.requested_volume`
unfoldable pub bad_volumes : Order → Bool
bad_volumes order =
    leb_ℤ order.requested_volume (pos 0)
    || ltb_ℤ order.filled_volume (pos 0)
    || ltb_ℤ order.requested_volume order.filled_volume

-- `restore` and `create` return the order's pointer or `nullptr`: the flag says which.
unfoldable pub restore : Oms → Order → Bool × Oms
restore o order =
    if (is_some (find o order.ref) || leb o.capacity (length o.orders)) || bad_volumes order
    then (false, o)
    else let o' = append_order o order in
      (
        true,
        record o' {
          reserved =
              if reserves_exposure order.state
              then o'.reserved +ℤ order.requested_volume
              else o'.reserved;
        },
      )

-- The risk approval is a token that carries no data.
unfoldable pub create : Oms → BrokerOrderRef → ℕ → ℤ → Bool × Oms
create o ref symbol volume =
    if is_some (find o ref) || leb o.capacity (length o.orders)
    then (false, o)
    else let order = record default_order {
      ref = ref;
      symbol_id = symbol;
      requested_volume = volume;
      state = pending_send;
    } in
      let o' = append_order o order in (true, record o' { reserved = o'.reserved +ℤ volume })

-- `o.state = next`, and the release of the reservation where the state stops reserving.
unfoldable pub mark_state : Oms → ℕ → OrderState → Oms
unfolding order_at
mark_state o slot next =
    let order = order_at o slot in
    let written = write o slot (record order { state = next }) in
    record written {
      reserved =
          if reserves_exposure order.state && not (reserves_exposure next)
          then written.reserved -ℤ order.requested_volume
          else written.reserved;
    }

unfoldable pub reclaim_if : Bool → Oms → ℕ → Oms
reclaim_if true o slot = reclaim o slot
reclaim_if false o slot = o

-- The part of `transition` behind its guards.
unfoldable pub change_state : Oms → ℕ → OrderState → Oms
change_state o slot next = reclaim_if (is_terminal next) (mark_state o slot next) slot

unfoldable pub transition : Oms → BrokerOrderRef → OrderState → Bool × Oms
unfolding order_at
transition o ref next = elim (find_slot o ref) [
  | none ↦ (false, o)
  | some slot ↦
      if not (legal (order_at o slot).state next)
      then (false, o)
      else (true, change_state o slot next)
]

-- `volume <= 0 || volume > o->remaining()`
unfoldable pub bad_fill : Order → ℤ → Bool
unfolding remaining
bad_fill order volume = leb_ℤ volume (pos 0) || ltb_ℤ (remaining order) volume

unfoldable pub add_fill : Order → ℤ → Order
add_fill order volume = record order { filled_volume = order.filled_volume +ℤ volume }

unfoldable pub fill : Oms → BrokerOrderRef → ℤ → Bool × Oms
unfolding order_at
fill o ref volume = elim (find_slot o ref) [
  | none ↦ (false, o)
  | some slot ↦
      let order = order_at o slot in
      if bad_fill order volume
      then (false, o)
      else let order' = add_fill order volume in
        transition (write o slot order') ref
          (if remaining order' ==ℤ pos 0 then filled else partially_filled)
]

unfoldable pub recover_fill : Oms → BrokerOrderRef → ℤ → Bool × Oms
unfolding order_at
recover_fill o ref volume = elim (find_slot o ref) [
  | none ↦ (false, o)
  | some slot ↦
      let order = order_at o slot in
      if bad_fill order volume then (false, o) else (true, write o slot (add_fill order volume))
]

unfoldable pub mark_unknown_on_restart : Oms → BrokerOrderRef → Bool × Oms
unfolding order_at
mark_unknown_on_restart o ref = elim (find_slot o ref) [
  | none ↦ (false, o)
  | some slot ↦
      let order = order_at o slot in
      if is_terminal order.state
      then (false, o)
      else (true, write o slot (record order { state = unknown }))
]

unfoldable pub resolve_unknown : Oms → BrokerOrderRef → OrderState → Bool × Oms
unfolding order_at
resolve_unknown o ref terminal = elim (find_slot o ref) [
  | none ↦ (false, o)
  | some slot ↦
      if is_unknown (order_at o slot).state && is_terminal terminal
      then transition o ref terminal
      else (false, o)
]

-- ===== src/Risk/Ledger/Operations.antt =====
-- include/risk/risk_ledger.hpp: reserve, release, reconcile, replace and rebuild.
use market_microstructure_en.Base.{
  ℕ, ◌+◌, ◌-◌, Bool, true, false, ◌||◌, not, ◌==◌, ltb, leb, if◌then◌else◌, List, [], ◌∷◌, ◌++◌,
  Option, none, some, is_some, get_or, set,
}
use market_microstructure_en.Base.Int.{ℤ, pos, ◌-ℤ◌, ltb_ℤ, leb_ℤ, ◌==ℤ◌, neg}
use market_microstructure_en.Exec.Types.{BrokerOrderRef, Side, buy, sell, Order, is_terminal}
use market_microstructure_en.Risk.Ledger.{
  max_symbols, unattributed_strategy, Dim, strategy_dim, venue_dim, symbol_dim, global_dim,
  RiskLedger, find_id, add_at, unwind_exposure, unwind_credit, reserve_exposure, reserve_credit,
}
use market_microstructure_en.Risk.Ledger.Table.{
  Reservation, no_reservation, probe, find_reservation,
}

unfoldable pub reservation_at : RiskLedger → ℕ → Reservation
reservation_at l p = get_or l.reservations p no_reservation

-- A write through the pointer that `find_reservation` returned.
unfoldable pub write_reservation : RiskLedger → ℕ → Reservation → RiskLedger
write_reservation l p r = record l { reservations = set l.reservations p r }

-- `allocate_reservation`: the position, with the table's entry occupied.
unfoldable pub allocate_reservation : RiskLedger → BrokerOrderRef → Option (ℕ × RiskLedger)
unfolding reservation_at
allocate_reservation l ref = elim (probe l.reservations ref) [
  | none ↦ none
  | some p ↦
      if (reservation_at l p).occupied
      then none
      else some (
        p,
        record l {
          reservations = set l.reservations p (record (reservation_at l p) { occupied = true });
          reservation_live_count = l.reservation_live_count + 1;
        },
      )
]

unfoldable pub free_reservation : RiskLedger → BrokerOrderRef → RiskLedger
unfolding reservation_at
free_reservation l ref = elim (probe l.reservations ref) [
  | none ↦ l
  | some p ↦
      if (reservation_at l p).occupied
      then record l {
        reservations = set l.reservations p no_reservation;
        reservation_live_count = l.reservation_live_count - 1;
      }
      else l
]

-- The dimensions of an order: its strategy's, if it has one, then symbol, venue and the whole.
unfoldable pub dims_with : Option ℕ → ℕ → ℕ → List Dim
dims_with none symbol venue = symbol_dim symbol ∷ venue_dim venue ∷ global_dim ∷ []
dims_with (some s) symbol venue =
    strategy_dim s ∷ symbol_dim symbol ∷ venue_dim venue ∷ global_dim ∷ []

-- `dims_for`, which leaves out what is not registered.
unfoldable pub dims_for : RiskLedger → Reservation → List Dim
dims_for l r =
    (if r.strategy == unattributed_strategy
      then []
      else elim (find_id r.strategy l.strategies) [ none ↦ [] | some i ↦ strategy_dim i ∷ [] ])
    ++ (if ltb r.symbol max_symbols then symbol_dim r.symbol ∷ [] else [])
    ++ (elim (find_id r.venue l.venues) [ none ↦ [] | some i ↦ venue_dim i ∷ [] ])
    ++ (global_dim ∷ [])

-- The last part of `reserve`: exposure, then credit, then the table, undone where one of them fails.
unfoldable pub reserve_dims :
    RiskLedger → List Dim → ℕ → ℕ → ℕ → Side → ℤ → BrokerOrderRef → Bool × RiskLedger
reserve_dims l dims strategy venue symbol side volume ref =
    let exposed = reserve_exposure l [] dims volume in
    let credited = reserve_credit exposed.1 [] dims volume in
    if not exposed.0
    then (false, exposed.1)
    else if not credited.0
    then (false, unwind_exposure credited.1 dims volume)
    else elim (allocate_reservation credited.1 ref) [
      | none ↦ (false, unwind_credit (unwind_exposure credited.1 dims volume) dims volume)
      | some found ↦ (
        true,
        write_reservation found.1 found.0 (record {
          occupied = true;
          ref = ref;
          strategy = strategy;
          venue = venue;
          symbol = symbol;
          side = side;
          requested_volume = volume;
          last_known_filled = pos 0;
          credit_reserved = volume;
          credit_released = false;
          active = true;
        }),
      )
    ]

-- `reserve` behind the lookup of the strategy; `none` stands for no strategy.
unfoldable pub reserve_for :
    RiskLedger → Option ℕ → ℕ → ℕ → ℕ → Side → ℤ → BrokerOrderRef → Bool × RiskLedger
reserve_for l slot strategy venue symbol side volume ref = elim (find_id venue l.venues) [
  | none ↦ (false, l)
  | some v ↦
      if leb max_symbols symbol
      then (false, l)
      else if elim slot [ none ↦ false | some s ↦ l.halted (strategy_dim s) ]
          || l.halted (venue_dim v)
          || l.halted (symbol_dim symbol)
      then (false, l)
      else reserve_dims l (dims_with slot symbol v) strategy venue symbol side volume ref
]

unfoldable pub reserve : RiskLedger → ℕ → ℕ → ℕ → Side → ℤ → BrokerOrderRef → Bool × RiskLedger
reserve l strategy venue symbol side volume ref =
    if leb_ℤ volume (pos 0) || ltb_ℤ l.config.max_order_volume volume
    then (false, l)
    else if is_some (find_reservation l.reservations ref)
    then (false, l)
    else if strategy == unattributed_strategy
    then reserve_for l none strategy venue symbol side volume ref
    else elim (find_id strategy l.strategies) [
      | none ↦ (false, l)
      | some s ↦ reserve_for l (some s) strategy venue symbol side volume ref
    ]

unfoldable pub attribute_strategy : RiskLedger → BrokerOrderRef → ℕ → Bool × RiskLedger
attribute_strategy l ref strategy = elim (find_reservation l.reservations ref) [
  | none ↦ (false, l)
  | some p ↦
      let r = reservation_at l p in
      if not (r.strategy == unattributed_strategy)
      then (false, l)
      else (true, write_reservation l p (record r { strategy = strategy }))
]

-- `release` of the reservation at a position.
unfoldable pub release_at : RiskLedger → ℕ → BrokerOrderRef → RiskLedger
release_at l p ref =
    let r = reservation_at l p in
    let remaining = r.requested_volume -ℤ r.last_known_filled in
    let dims = dims_for l r in
    let l1 = if ltb_ℤ (pos 0) remaining then unwind_exposure l dims remaining else l in
    let l2 = if not r.credit_released then unwind_credit l1 dims r.credit_reserved else l1 in
    free_reservation (write_reservation l2 p (record r { credit_released = true; active = false }))
      ref

unfoldable pub release : RiskLedger → BrokerOrderRef → RiskLedger
release l ref = elim (find_reservation l.reservations ref) [
  | none ↦ l
  | some p ↦ if not (reservation_at l p).active then l else release_at l p ref
]

-- The loop of `reconcile` over the dimensions.
unfoldable pub move_to_position : RiskLedger → List Dim → ℤ → ℤ → RiskLedger
move_to_position l [] delta signed_delta = l
move_to_position l (d ∷ ds) delta signed_delta =
    move_to_position
      (record l {
        open_exposure = add_at d (neg delta) l.open_exposure;
        position = add_at d signed_delta l.position;
      })
      ds delta signed_delta

unfoldable pub book_filled : RiskLedger → ℕ → ℤ → RiskLedger
book_filled l p filled =
    let r = reservation_at l p in
    let delta = filled -ℤ r.last_known_filled in
    if ltb_ℤ (pos 0) delta
    then write_reservation
        (move_to_position l (dims_for l r) delta (elim r.side [ buy ↦ delta | sell ↦ neg delta ])) p
        (record r { last_known_filled = filled })
    else l

unfoldable pub reconcile : RiskLedger → BrokerOrderRef → ℤ → Bool → RiskLedger
reconcile l ref filled is_terminal_or_gone = elim (find_reservation l.reservations ref) [
  | none ↦ l
  | some p ↦
      if not (reservation_at l p).active
      then l
      else let l' = book_filled l p filled in if is_terminal_or_gone then release l' ref else l'
]

unfoldable pub adjust_replace : RiskLedger → ℕ → BrokerOrderRef → ℤ → Bool × RiskLedger
adjust_replace l venue ref new_volume = elim (find_reservation l.reservations ref) [
  | none ↦ (false, l)
  | some p ↦
      let r = reservation_at l p in
      let delta = new_volume -ℤ r.requested_volume in
      let dims = dims_for l r in
      let done : RiskLedger → Bool × RiskLedger =
        λ m. (true, write_reservation m p (record r { requested_volume = new_volume })) in
      if not r.active
      then (false, l)
      else if delta ==ℤ pos 0
      then (true, l)
      else if ltb_ℤ (pos 0) delta
      then if ltb_ℤ l.config.max_order_volume new_volume
        then (false, l)
        else (let (fits, l') = reserve_exposure l [] dims delta in
            if not fits then (false, l') else done l')
      else done (unwind_exposure l dims (neg delta))
]

unfoldable pub undo_replace_increase : RiskLedger → BrokerOrderRef → ℤ → RiskLedger
undo_replace_increase l ref delta = elim (find_reservation l.reservations ref) [
  | none ↦ l
  | some p ↦
      let r = reservation_at l p in
      if leb_ℤ delta (pos 0)
      then l
      else write_reservation (unwind_exposure l (dims_for l r) delta) p
          (record r { requested_volume = r.requested_volume -ℤ delta })
]

-- The hook of a venue's connection knows no strategy and no side.
unfoldable pub admit_create : RiskLedger → ℕ → ℕ → ℤ → BrokerOrderRef → Bool × RiskLedger
admit_create l venue symbol volume ref = reserve l unattributed_strategy venue symbol buy volume ref

unfoldable pub admit_replace : RiskLedger → ℕ → BrokerOrderRef → ℤ → Bool × RiskLedger
admit_replace l venue ref new_volume = adjust_replace l venue ref new_volume

-- One order of the snapshot, at a registered venue's slot.
unfoldable pub rebuild_order : RiskLedger → ℕ → ℕ → Order → RiskLedger
rebuild_order l v venue o =
    let remaining = o.requested_volume -ℤ o.filled_volume in
    let signed_filled : ℤ = elim o.side [ buy ↦ o.filled_volume | sell ↦ neg o.filled_volume ] in
    if is_terminal o.state || leb_ℤ remaining (pos 0) || leb max_symbols o.symbol_id
    then l
    else let counted =
        move_to_position l (symbol_dim o.symbol_id ∷ venue_dim v ∷ global_dim ∷ []) (neg remaining)
          signed_filled in
      elim (allocate_reservation counted o.ref) [
        | none ↦ counted
        | some found ↦ write_reservation found.1 found.0 (record {
          occupied = true;
          ref = o.ref;
          strategy = unattributed_strategy;
          venue = venue;
          symbol = o.symbol_id;
          side = o.side;
          requested_volume = o.requested_volume;
          last_known_filled = o.filled_volume;
          credit_reserved = pos 0;
          credit_released = true;
          active = true;
        })
      ]

unfoldable pub rebuild_loop : RiskLedger → ℕ → ℕ → List Order → RiskLedger
rebuild_loop l v venue [] = l
rebuild_loop l v venue (o ∷ os) = rebuild_loop (rebuild_order l v venue o) v venue os

unfoldable pub rebuild_from_snapshot : RiskLedger → ℕ → List Order → RiskLedger
rebuild_from_snapshot l venue orders = elim (find_id venue l.venues) [
  | none ↦ l
  | some v ↦ rebuild_loop l v venue orders
]

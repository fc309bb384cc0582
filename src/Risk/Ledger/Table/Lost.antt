-- ===== src/Risk/Ledger/Table/Lost.antt =====
-- What freeing an entry without a tombstone does to the entries behind it.
use native.Mathlib.Nat.{mod-lt, mod-eq_of_lt}
use market_microstructure_en.Base.{
  ℕ, suc, ◌+◌, ◌-◌, ◌%◌, ◌<◌, ◌≡◌, refl, ap, ◌∙◌, arith, Bool, true, false, if◌then◌else◌, List,
  none, some, get_or, set, length, length-set, get_or-set_self,
}
use market_microstructure_en.Exec.Types.{BrokerOrderRef, ref_eq, ref_eq_refl}
use market_microstructure_en.Risk.Ledger.{RiskLedger}
use market_microstructure_en.Risk.Ledger.Operations.{free_reservation, reservation_at}
use market_microstructure_en.Risk.Ledger.Table.{
  Reservation, no_reservation, home_position, stops_at, probe_loop, probe, find_reservation,
}

home_inside :
    (table : List Reservation) (ref : BrokerOrderRef)
    → 0 < length table
    → home_position table ref < length table
home_inside table ref h = mod-lt _ h

home_mod :
    (table : List Reservation) (ref : BrokerOrderRef)
    → 0 < length table
    → (home_position table ref + 0) % length table ≡ home_position table ref
home_mod table ref h =
    ap (λ n. n % length table) (omega arith) ∙ mod-eq_of_lt (home_inside table ref h)

probe_loop-one :
    (table : List Reservation) (ref : BrokerOrderRef) (position n : ℕ)
    → stops_at table ref ((position + 0) % length table) ≡ true
    → probe_loop table ref position 0 (suc n) ≡ some ((position + 0) % length table)
unfolding probe_loop
probe_loop-one table ref position n h = rw h refl

probe_loop-two :
    (table : List Reservation) (ref : BrokerOrderRef) (position n : ℕ)
    → stops_at table ref ((position + 0) % length table) ≡ false
    → stops_at table ref ((position + 1) % length table) ≡ true
    → probe_loop table ref position 0 (suc (suc n)) ≡ some ((position + 1) % length table)
unfolding probe_loop
probe_loop-two table ref position n h k = rw (h, k) refl

find-probe :
    (table : List Reservation) (ref : BrokerOrderRef) (p : ℕ) (b : Bool)
    → probe table ref ≡ some p
    → (get_or table p no_reservation).occupied ≡ b
    → find_reservation table ref ≡ (if b then some p else none)
unfolding find_reservation
find-probe table ref p b h k = rw (h, find_reservation) (rw k refl)

-- A table in which a reservation stands one position behind its home, which the reservation of another
-- order with the same home occupies.
pub record Behind (table : List Reservation) (ref blocker : BrokerOrderRef) : Type 0 where
  pub long : 1 < length table
  pub same_home : home_position table blocker ≡ home_position table ref
  pub taken : (get_or table (home_position table ref) no_reservation).occupied ≡ true
  pub taken_by : (get_or table (home_position table ref) no_reservation).ref ≡ blocker
  pub other : ref_eq blocker ref ≡ false
  pub there :
      (get_or table ((home_position table ref + 1) % length table) no_reservation).occupied ≡ true
  pub own :
      ref_eq (get_or table ((home_position table ref + 1) % length table) no_reservation).ref ref
      ≡ true

probe-one :
    (table : List Reservation) (ref : BrokerOrderRef)
    → 0 < length table
    → stops_at table ref (home_position table ref) ≡ true
    → probe table ref ≡ some (home_position table ref)
unfolding probe
probe-one table ref h stopped =
    let mod0 = home_mod table ref h in
    let long : length table ≡ suc (length table - 1) = omega arith in
    ap (probe_loop table ref (home_position table ref) 0) long
    ∙ probe_loop-one table ref (home_position table ref) (length table - 1) (rw mod0 stopped)
    ∙ ap some mod0

probe-two :
    (table : List Reservation) (ref : BrokerOrderRef)
    → 1 < length table
    → stops_at table ref (home_position table ref) ≡ false
    → stops_at table ref ((home_position table ref + 1) % length table) ≡ true
    → probe table ref ≡ some ((home_position table ref + 1) % length table)
unfolding probe
probe-two table ref h passed stopped =
    let long : length table ≡ suc (suc (length table - 2)) = omega arith in
    ap (probe_loop table ref (home_position table ref) 0) long
    ∙ probe_loop-two table ref (home_position table ref) (length table - 2)
        (rw (home_mod table ref (omega arith)) passed) stopped

free-first :
    (l : RiskLedger) (ref : BrokerOrderRef)
    → 0 < length l.reservations
    → (get_or l.reservations (home_position l.reservations ref) no_reservation).occupied ≡ true
    → (get_or l.reservations (home_position l.reservations ref) no_reservation).ref ≡ ref
    → (free_reservation l ref).reservations
      ≡ set l.reservations (home_position l.reservations ref) no_reservation
unfolding free_reservation stops_at reservation_at
free-first l ref h taken own =
    let way = probe-one l.reservations ref h (rw (taken, own, ref_eq_refl ref) refl) in
    rw (free_reservation, way) (rw taken refl)

find-emptied :
    (table : List Reservation) (ref : BrokerOrderRef)
    → 0 < length table
    → find_reservation (set table (home_position table ref) no_reservation) ref ≡ none
unfolding stops_at
find-emptied table ref h =
    let t : List Reservation = set table (home_position table ref) no_reservation in
    find-probe t ref (home_position t ref) false
      (probe-one t ref (rw (length-set table (home_position table ref) no_reservation) h)
        (rw empty refl))
      (ap (λ (r : Reservation). r.occupied) empty)
  where
    empty :
        get_or
          (set table (home_position table ref) no_reservation)
          (home_position (set table (home_position table ref) no_reservation) ref)
          no_reservation
        ≡ no_reservation
    empty = rw (length-set table (home_position table ref) no_reservation) (
        get_or-set_self table (home_position table ref) no_reservation no_reservation
          (home_inside table ref h))

-- A reservation that stands one position behind its home, which the reservation of an order with the same
-- home occupies, is found; once `free_reservation` has freed that other one, it is not found any more.
pub freed_loses :
    (l : RiskLedger) (ref blocker : BrokerOrderRef)
    → Behind l.reservations ref blocker
    → (find_reservation l.reservations ref
        ≡ some ((home_position l.reservations ref + 1) % length l.reservations))
      × (find_reservation (free_reservation l blocker).reservations ref ≡ none)
unfolding stops_at
freed_loses l ref blocker b =
    let table = l.reservations in
    let passed : stops_at table ref (home_position table ref) ≡ false =
      rw (b.taken, b.taken_by, b.other) refl in
    let stops : stops_at table ref ((home_position table ref + 1) % length table) ≡ true =
      rw (b.there, b.own) refl in
    let freed : (free_reservation l blocker).reservations
        ≡ set table (home_position table ref) no_reservation =
      free-first l blocker (omega (arith, b.long)) (rw b.same_home b.taken)
        (rw b.same_home b.taken_by)
      ∙ ap (λ p. set table p no_reservation) b.same_home in
    (
      find-probe table ref _ true (probe-two table ref b.long passed stops) b.there,
      rw freed (find-emptied table ref (small b.long)),
    )
  where
    small : {n : ℕ} → 1 < n → 0 < n
    small h = omega (arith, h)

-- ===== src/Risk/Ledger/Table.antt =====
-- include/risk/risk_ledger.hpp: the table of reservations, open addressing with a linear probe.
pub mod Lost
use market_microstructure_en.Base.{
  ℕ, zero, suc, ◌+◌, ◌-◌, ◌%◌, Bool, true, false, ◌||◌, not, if◌then◌else◌, List, Option, none,
  some, get_or, set, length,
}
use market_microstructure_en.Base.Int.{ℤ, pos}
use market_microstructure_en.Base.Words.{add64, mul64}
use market_microstructure_en.Exec.Types.{BrokerOrderRef, ref_eq, no_ref, Side, buy}

pub record Reservation : Type 0 where
  pub occupied : Bool
  pub ref : BrokerOrderRef
  pub strategy : ℕ
  pub venue : ℕ
  pub symbol : ℕ
  pub side : Side
  pub requested_volume : ℤ
  pub last_known_filled : ℤ
  pub credit_reserved : ℤ
  pub credit_released : Bool
  pub active : Bool

-- `Reservation{}`.
abbrev pub no_reservation : Reservation
no_reservation = record {
  occupied = false;
  ref = no_ref;
  strategy = 0;
  venue = 0;
  symbol = 0;
  side = buy;
  requested_volume = pos 0;
  last_known_filled = pos 0;
  credit_reserved = pos 0;
  credit_released = false;
  active = false;
}

abbrev pub home_position : List Reservation → BrokerOrderRef → ℕ
home_position table ref = add64 (mul64 ref.run_id 1099511628211) ref.logical_order_id % length table

unfoldable pub stops_at : List Reservation → BrokerOrderRef → ℕ → Bool
stops_at table ref p = let r = get_or table p no_reservation in not r.occupied || ref_eq r.ref ref

-- `n` positions remain to look at, the next of them is `(position + i) % capacity`.
unfoldable pub probe_loop : List Reservation → BrokerOrderRef → ℕ → ℕ → ℕ → Option ℕ
probe_loop table ref position i zero = none
probe_loop table ref position i (suc n) =
    let rest = probe_loop table ref position (suc i) n in
    let p = (position + i) % length table in if stops_at table ref p then some p else rest

-- `none` stands for `reservation_capacity_`.
unfoldable pub probe : List Reservation → BrokerOrderRef → Option ℕ
probe table ref = probe_loop table ref (home_position table ref) 0 (length table)

-- The position of a reservation, where `find_reservation` returns a pointer.
unfoldable pub find_reservation : List Reservation → BrokerOrderRef → Option ℕ
find_reservation table ref = elim (probe table ref) [
  | none ↦ none
  | some p ↦ if (get_or table p no_reservation).occupied then some p else none
]

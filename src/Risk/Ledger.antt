-- ===== src/Risk/Ledger.antt =====
-- include/risk/risk_ledger.hpp: exposure, position and credit of strategies, venues, symbols and the whole.
pub mod Table
pub mod Undo
pub mod Within
pub mod Operations
use market_microstructure_en.Base.{
  ℕ, zero, suc, ◌+◌, ◌-◌, ◌%◌, Bool, true, false, ◌&&◌, ◌||◌, not, ◌==◌, ltb, leb, if◌then◌else◌,
  List, [], ◌∷◌, ◌++◌, Option, none, some, is_some, get_or, set, length, replicate,
}
use market_microstructure_en.Base.Int.{ℤ, pos, ◌+ℤ◌, ◌-ℤ◌, ltb_ℤ, leb_ℤ, ◌==ℤ◌, neg}
use market_microstructure_en.Exec.Types.{
  BrokerOrderRef, ref_eq, no_ref, Side, buy, sell, Order, is_terminal,
}
use market_microstructure_en.Risk.Ledger.Table.{
  Reservation, no_reservation, probe, find_reservation,
}

abbrev pub max_symbols : ℕ
max_symbols = 8

abbrev pub unattributed_strategy : ℕ
unattributed_strategy = 0

-- One `DimensionState` each: a strategy slot, a venue slot, a symbol, the whole.
pub data Dim : Type 0 where
  strategy_dim : ℕ → Dim
  venue_dim : ℕ → Dim
  symbol_dim : ℕ → Dim
  global_dim : Dim

unfoldable pub dim_eq : Dim → Dim → Bool
dim_eq (strategy_dim i) (strategy_dim j) = i == j
dim_eq (venue_dim i) (venue_dim j) = i == j
dim_eq (symbol_dim i) (symbol_dim j) = i == j
dim_eq global_dim global_dim = true
dim_eq _ _ = false

pub record DimensionLimits : Type 0 where
  pub open_order_limit : ℤ
  pub position_limit : ℤ
  pub credit_budget : ℤ

pub record RiskLedgerConfig : Type 0 where
  pub max_order_volume : ℤ
  pub global : DimensionLimits
  pub per_strategy : DimensionLimits
  pub per_venue : DimensionLimits
  pub per_symbol : DimensionLimits

unfoldable pub limits_of : RiskLedgerConfig → Dim → DimensionLimits
limits_of c (strategy_dim _) = c.per_strategy
limits_of c (venue_dim _) = c.per_venue
limits_of c (symbol_dim _) = c.per_symbol
limits_of c global_dim = c.global

pub record Slot : Type 0 where
  pub registered : Bool
  pub id : ℕ

-- The counters of the `DimensionState`s, one map for each member. `halted` at a symbol is
-- `symbol_halted_`.
pub record RiskLedger : Type 0 where
  pub config : RiskLedgerConfig
  pub strategies : List Slot
  pub venues : List Slot
  pub open_exposure : Dim → ℤ
  pub position : Dim → ℤ
  pub credit_remaining : Dim → ℤ
  pub halted : Dim → Bool
  pub reservations : List Reservation
  pub reservation_live_count : ℕ

abbrev pub free_slot : Slot
free_slot = record { registered = false; id = 0 }

unfoldable pub make_ledger : ℕ → ℕ → ℕ → RiskLedgerConfig → RiskLedger
unfolding limits_of
make_ledger max_strategies max_venues reservation_capacity config = record {
  config = config;
  strategies = replicate max_strategies free_slot;
  venues = replicate max_venues free_slot;
  open_exposure = λ _. pos 0;
  position = λ _. pos 0;
  credit_remaining = λ d. (limits_of config d).credit_budget;
  halted = λ _. false;
  reservations = replicate reservation_capacity no_reservation;
  reservation_live_count = 0;
}

-- `find_strategy_slot` and `find_venue_slot`.
unfoldable pub find_id : ℕ → List Slot → Option ℕ
find_id id [] = none
find_id id (x ∷ xs) =
    let rest = find_id id xs in
    if x.registered && x.id == id then some 0 else elim rest [ none ↦ none | some i ↦ some (suc i) ]

-- The first slot that is not registered takes the id.
unfoldable pub claim_slot : ℕ → List Slot → Option (List Slot)
claim_slot id [] = none
claim_slot id (x ∷ xs) =
    let rest = claim_slot id xs in
    if not x.registered
    then some (record { registered = true; id = id } ∷ xs)
    else elim rest [ none ↦ none | some ys ↦ some (x ∷ ys) ]

unfoldable pub register_strategy : RiskLedger → ℕ → Bool × RiskLedger
register_strategy l id =
    if id == unattributed_strategy || is_some (find_id id l.strategies)
    then (false, l)
    else elim (claim_slot id l.strategies) [
      | none ↦ (false, l)
      | some slots ↦ (true, record l { strategies = slots })
    ]

unfoldable pub register_venue : RiskLedger → ℕ → Bool × RiskLedger
register_venue l id =
    if is_some (find_id id l.venues) then (false, l) else elim (claim_slot id l.venues) [
      | none ↦ (false, l)
      | some slots ↦ (true, record l { venues = slots })
    ]

unfoldable pub halt_dim : RiskLedger → Dim → RiskLedger
unfolding dim_eq
halt_dim l d = record l { halted = λ e. if dim_eq d e then true else l.halted e }

unfoldable pub halt_strategy : RiskLedger → ℕ → RiskLedger
halt_strategy l id = elim (find_id id l.strategies) [
  | none ↦ l
  | some i ↦ halt_dim l (strategy_dim i)
]

unfoldable pub halt_venue : RiskLedger → ℕ → RiskLedger
halt_venue l id = elim (find_id id l.venues) [ none ↦ l | some i ↦ halt_dim l (venue_dim i) ]

unfoldable pub halt_symbol : RiskLedger → ℕ → RiskLedger
halt_symbol l symbol = if ltb symbol max_symbols then halt_dim l (symbol_dim symbol) else l

-- `fetch_add(v)` on one counter.
unfoldable pub add_at : Dim → ℤ → (Dim → ℤ) → Dim → ℤ
unfolding dim_eq
add_at d v f e = if dim_eq d e then f e +ℤ v else f e

unfoldable pub unwind_exposure : RiskLedger → List Dim → ℤ → RiskLedger
unfolding add_at
unwind_exposure l [] volume = l
unwind_exposure l (d ∷ ds) volume =
    unwind_exposure (record l { open_exposure = add_at d (neg volume) l.open_exposure }) ds volume

unfoldable pub unwind_credit : RiskLedger → List Dim → ℤ → RiskLedger
unfolding add_at
unwind_credit l [] cost = l
unwind_credit l (d ∷ ds) cost =
    unwind_credit (record l { credit_remaining = add_at d cost l.credit_remaining }) ds cost

-- `committed` holds the dimensions that the loop has passed.
unfoldable pub reserve_exposure : RiskLedger → List Dim → List Dim → ℤ → Bool × RiskLedger
unfolding add_at unwind_exposure limits_of
reserve_exposure l committed [] volume = (true, l)
reserve_exposure l committed (d ∷ ds) volume =
    let l1 = record l { open_exposure = add_at d volume l.open_exposure } in
    let rest = reserve_exposure l1 (committed ++ (d ∷ [])) ds volume in
    if ltb_ℤ (limits_of l.config d).open_order_limit (l1.open_exposure d)
    then (
      false,
      unwind_exposure (record l1 { open_exposure = add_at d (neg volume) l1.open_exposure })
          committed volume,
    )
    else rest

unfoldable pub reserve_credit : RiskLedger → List Dim → List Dim → ℤ → Bool × RiskLedger
unfolding add_at unwind_credit
reserve_credit l committed [] cost = (true, l)
reserve_credit l committed (d ∷ ds) cost =
    let l1 = record l { credit_remaining = add_at d (neg cost) l.credit_remaining } in
    let rest = reserve_credit l1 (committed ++ (d ∷ [])) ds cost in
    if ltb_ℤ (l1.credit_remaining d) (pos 0)
    then (
      false,
      unwind_credit (record l1 { credit_remaining = add_at d cost l1.credit_remaining }) committed
          cost,
    )
    else rest

-- ===== src/Oms/Report.antt =====
-- include/oms/report_sequencer.hpp: reports, the pool of held reports and the cache of finished orders.
pub mod Pool
pub mod Cache
use market_microstructure_en.Base.{
  ℕ, zero, suc, ◌+◌, ◌-◌, ◌%◌, Bool, true, false, ◌&&◌, ◌==◌, ltb, if◌then◌else◌, List, [], ◌∷◌,
  Option, none, some, get_or, set, replicate, length, take,
}
use market_microstructure_en.Base.Int.{ℤ, pos}
use market_microstructure_en.Base.Words.{add64}
use market_microstructure_en.Exec.Types.{BrokerOrderRef, ref_eq, no_ref}

pub data ReportKind : Type 0 where
  ack fill_report cancel_pending_report cancelled_report reject replace_ack : ReportKind

pub record ExecReport : Type 0 where
  pub ref : BrokerOrderRef
  pub venue_seq : ℕ
  pub kind : ReportKind
  pub volume : ℤ
  pub price : ℤ

pub data ReportOutcome : Type 0 where
  applied duplicate held_for_gap unknown_order terminal_late illegal gap_pool_exhausted :
      ReportOutcome

-- `ExecReport{}`.
abbrev pub default_report : ExecReport
default_report = record { ref = no_ref; venue_seq = 0; kind = ack; volume = pos 0; price = pos 0 }

pub record Slot : Type 0 where
  pub occupied : Bool
  pub report : ExecReport

abbrev pub empty_slot : Slot
empty_slot = record { occupied = false; report = default_report }

-- `capacity_` is the length of `slots`.
pub record GapPool : Type 0 where
  pub slots : List Slot
  pub held_count : ℕ

unfoldable pub make_pool : ℕ → GapPool
make_pool capacity = record { slots = replicate capacity empty_slot; held_count = 0 }

-- The first slot that is free takes the report.
unfoldable pub hold_slots : List Slot → ExecReport → Option (List Slot)
hold_slots [] report = none
hold_slots (x ∷ xs) report =
    let rest = hold_slots xs report in
    if x.occupied
    then elim rest [ none ↦ none | some ys ↦ some (x ∷ ys) ]
    else some (record { occupied = true; report = report } ∷ xs)

unfoldable pub hold : GapPool → ExecReport → Bool × GapPool
hold pool report = elim (hold_slots pool.slots report) [
  | none ↦ (false, pool)
  | some slots ↦ (true, record { slots = slots; held_count = pool.held_count + 1 })
]

unfoldable pub matches : BrokerOrderRef → ℕ → Slot → Bool
matches ref seq x = x.occupied && ref_eq x.report.ref ref && x.report.venue_seq == seq

-- The first slot that matches gives up its report.
unfoldable pub take_slots : List Slot → BrokerOrderRef → ℕ → Option (ExecReport × List Slot)
take_slots [] ref seq = none
take_slots (x ∷ xs) ref seq =
    let rest = take_slots xs ref seq in
    if matches ref seq x
    then some (x.report, record x { occupied = false } ∷ xs)
    else elim rest [ none ↦ none | some found ↦ some (found.0, x ∷ found.1) ]

-- `take`: the report comes back as a value instead of through `out`.
unfoldable pub take_report : GapPool → BrokerOrderRef → ℕ → Option (ExecReport × GapPool)
take_report pool ref seq = elim (take_slots pool.slots ref seq) [
  | none ↦ none
  | some found ↦ some (found.0, record { slots = found.1; held_count = pool.held_count - 1 })
]

unfoldable pub discard_slots : BrokerOrderRef → List Slot → ℕ → List Slot × ℕ
discard_slots ref [] held = ([], held)
discard_slots ref (x ∷ xs) held =
    let drops = x.occupied && ref_eq x.report.ref ref in
    let (ys, held') = discard_slots ref xs (if drops then held - 1 else held) in
    ((if drops then record x { occupied = false } else x) ∷ ys, held')

unfoldable pub discard_all_for : GapPool → BrokerOrderRef → GapPool
discard_all_for pool ref =
    let (slots, held) = discard_slots ref pool.slots pool.held_count in
    record { slots = slots; held_count = held }

pub record TerminalCache : Type 0 where
  pub capacity : ℕ
  pub written : ℕ
  pub count : ℕ
  pub ring : List BrokerOrderRef

unfoldable pub make_cache : ℕ → TerminalCache
make_cache capacity =
    let capacity = if capacity == 0 then 1 else capacity in
    record { capacity = capacity; written = 0; count = 0; ring = replicate capacity no_ref }

-- `TerminalCache::record`; `written` is `write_`, a 64-bit counter.
unfoldable pub remember : TerminalCache → BrokerOrderRef → TerminalCache
remember cache ref = record cache {
  ring = set cache.ring (cache.written % cache.capacity) ref;
  written = add64 cache.written 1;
  count = if ltb cache.count cache.capacity then cache.count + 1 else cache.count;
}

unfoldable pub any_ref : BrokerOrderRef → List BrokerOrderRef → Bool
any_ref ref [] = false
any_ref ref (x ∷ xs) = let rest = any_ref ref xs in if ref_eq x ref then true else rest

unfoldable pub contains : TerminalCache → BrokerOrderRef → Bool
contains cache ref = any_ref ref (take cache.count cache.ring)

-- ===== src/Oms/Scheduler.antt =====
-- include/oms/strategy_scheduler.hpp: deficit round robin over the strategies' queues, and the
-- tracker that prevents one strategy from trading against another.
use market_microstructure_en.Base.{
  ℕ, zero, suc, ◌+◌, ◌-◌, ◌%◌, max, Bool, true, false, ◌&&◌, ◌||◌, not, ◌==◌, ltb, leb,
  if◌then◌else◌, List, [], ◌∷◌, length, Option, none, some, get_or, set, replicate,
}
use market_microstructure_en.Base.Int.{ℤ, pos, neg, ◌+ℤ◌, ◌-ℤ◌, leb_ℤ}
use market_microstructure_en.Base.Words.{add64}
use market_microstructure_en.Exec.Types.{Side, buy, sell}
use market_microstructure_en.Risk.Margin.{self_trade_ok}
use market_microstructure_en.Oms.RateLimiter.{PendingRequest, no_request}
pub mod Wait
pub mod Keep
pub mod Fair
mod Tests

pub record ArbitratedRequest : Type 0 where
  pub strategy : ℕ
  pub venue : ℕ
  pub side : Side
  pub request : PendingRequest

abbrev pub no_arbitrated : ArbitratedRequest
no_arbitrated = record { strategy = 0; venue = 0; side = buy; request = no_request }

pub record Slot : Type 0 where
  pub registered : Bool
  pub id : ℕ
  pub quantum : ℕ
  pub deficit : ℤ
  pub requests : List ArbitratedRequest
  pub head : ℕ
  pub count : ℕ
  pub high_water : ℕ
  pub admitted : ℕ
  pub queue_full_rejections : ℕ

abbrev pub empty_slot : ℕ → Slot
empty_slot queue_capacity = record {
  registered = false;
  id = 0;
  quantum = 1;
  deficit = pos 0;
  requests = replicate queue_capacity no_arbitrated;
  head = 0;
  count = 0;
  high_water = 0;
  admitted = 0;
  queue_full_rejections = 0;
}

-- `max_strategies_` is the length of `slots`.
pub record StrategyScheduler : Type 0 where
  pub queue_capacity : ℕ
  pub slots : List Slot
  pub cursor : ℕ
  pub visit_deficit : ℤ

unfoldable pub make_scheduler : ℕ → ℕ → StrategyScheduler
make_scheduler max_strategies queue_capacity = record {
  queue_capacity = queue_capacity;
  slots = replicate max_strategies (empty_slot queue_capacity);
  cursor = 0;
  visit_deficit = pos 0;
}

-- The loop of `find_slot`.
unfoldable pub slot_of : List Slot → ℕ → Option ℕ
slot_of [] id = none
slot_of (s ∷ ss) id =
    let rest = slot_of ss id in
    if s.registered && s.id == id then some 0 else elim rest [ none ↦ none | some i ↦ some (suc i) ]

-- The loop of `register_strategy` that looks for a free slot.
unfoldable pub free_slot : List Slot → Option ℕ
free_slot [] = none
free_slot (s ∷ ss) =
    let rest = free_slot ss in
    if not s.registered then some 0 else elim rest [ none ↦ none | some i ↦ some (suc i) ]

abbrev pub slot_at : StrategyScheduler → ℕ → Slot
slot_at s i = get_or s.slots i (empty_slot s.queue_capacity)

abbrev pub write_slot : StrategyScheduler → ℕ → Slot → StrategyScheduler
write_slot s i slot = record s { slots = set s.slots i slot }

unfoldable pub register_strategy : StrategyScheduler → ℕ → ℕ → Bool × StrategyScheduler
register_strategy s id quantum = if quantum == 0 then (false, s) else elim (slot_of s.slots id) [
  | some _ ↦ (false, s)
  | none ↦ elim (free_slot s.slots) [
    | none ↦ (false, s)
    | some i ↦ (
      true,
      write_slot s i (record (slot_at s i) {
        registered = true;
        id = id;
        quantum = quantum;
        deficit = pos 0;
        head = 0;
        count = 0;
      }),
    )
  ]
]

-- `enqueue` on a slot that has room.
unfoldable pub add_request : ℕ → Slot → ArbitratedRequest → Slot
add_request queue_capacity slot r = record slot {
  requests = set slot.requests ((slot.head + slot.count) % queue_capacity) r;
  count = slot.count + 1;
  high_water = max slot.high_water (slot.count + 1);
}

unfoldable pub enqueue :
    StrategyScheduler → ℕ → ℕ → Side → PendingRequest → Bool × StrategyScheduler
unfolding add_request
enqueue s id venue side request = elim (slot_of s.slots id) [
  | none ↦ (false, s)
  | some i ↦
      let slot = slot_at s i in
      if leb s.queue_capacity slot.count
      then (
        false,
        write_slot s i (record slot { queue_full_rejections = add64 slot.queue_full_rejections 1 }),
      )
      else (
        true,
        write_slot s i (
            add_request s.queue_capacity slot
              (record { strategy = id; venue = venue; side = side; request = request })),
      )
]

unfoldable pub active : Slot → Bool
active slot = slot.registered && not (slot.count == 0)

unfoldable pub active_count : List Slot → ℕ
unfolding active
active_count [] = 0
active_count (s ∷ ss) = if active s then suc (active_count ss) else active_count ss

unfoldable pub advance : StrategyScheduler → StrategyScheduler
advance s = record s { cursor = (s.cursor + 1) % length s.slots; visit_deficit = pos 0 }

-- The slot after its front request is handed out.
abbrev pub take_front : ℕ → Slot → Slot
take_front queue_capacity slot = record slot {
  head = (slot.head + 1) % queue_capacity;
  count = slot.count - 1;
  admitted = add64 slot.admitted 1;
}

-- The requests that the visit at the cursor has left, the next one included.
unfoldable pub visit_credit : StrategyScheduler → ℤ
visit_credit s =
    if leb_ℤ s.visit_deficit (pos 0) then pos (slot_at s s.cursor).quantum else s.visit_deficit

-- The scheduler after the front request of the slot at the cursor is handed out.
unfoldable pub served : StrategyScheduler → StrategyScheduler
unfolding visit_credit
served s =
    let slot = slot_at s s.cursor in
    let slot' = if leb_ℤ s.visit_deficit (pos 0) then record slot { deficit = pos 0 } else slot in
    record (write_slot s s.cursor (take_front s.queue_capacity slot')) {
      visit_deficit = visit_credit s -ℤ pos 1;
    }

-- The part of a scan of `next` that serves the slot at the cursor.
unfoldable pub serve : StrategyScheduler → ArbitratedRequest × StrategyScheduler
unfolding advance served
serve s =
    let slot = slot_at s s.cursor in
    (
      get_or slot.requests slot.head no_arbitrated,
      if slot.count - 1 == 0 || leb_ℤ (served s).visit_deficit (pos 0)
          then advance (served s)
          else served s,
    )

-- The part of a scan that passes over a slot with nothing to serve.
unfoldable pub pass_over : StrategyScheduler → StrategyScheduler
unfolding advance
pass_over s = advance (write_slot s s.cursor (record (slot_at s s.cursor) { deficit = pos 0 }))

-- The loop of `next`, on the number of scans left.
unfoldable pub scan : ℕ → StrategyScheduler → Option ArbitratedRequest × StrategyScheduler
unfolding active serve pass_over
scan zero s = (none, s)
scan (suc scans) s =
    let rest = scan scans (pass_over s) in
    let (out, s') = serve s in if not (active (slot_at s s.cursor)) then rest else (some out, s')

unfoldable pub next_request : StrategyScheduler → Option ArbitratedRequest × StrategyScheduler
unfolding scan active_count
next_request s = if active_count s.slots == 0 then (none, s) else scan (length s.slots) s

-- `SelfTradeTracker::Entry`
pub record Entry : Type 0 where
  pub used : Bool
  pub entry_venue : ℕ
  pub entry_symbol : ℕ
  pub owner : ℕ
  pub net_volume : ℤ

abbrev pub empty_entry : Entry
empty_entry = record {
  used = false;
  entry_venue = 0;
  entry_symbol = 0;
  owner = 0;
  net_volume = pos 0;
}

pub record SelfTradeTracker : Type 0 where
  pub allow_cross_strategy_opposition : Bool
  pub entries : List Entry

abbrev pub make_tracker : Bool → ℕ → SelfTradeTracker
make_tracker allow capacity = record {
  allow_cross_strategy_opposition = allow;
  entries = replicate capacity empty_entry;
}

unfoldable pub find_entry : List Entry → ℕ → ℕ → Option ℕ
find_entry [] venue symbol = none
find_entry (e ∷ es) venue symbol =
    let rest = find_entry es venue symbol in
    if e.used && e.entry_venue == venue && e.entry_symbol == symbol
    then some 0
    else elim rest [ none ↦ none | some i ↦ some (suc i) ]

unfoldable pub free_entry : List Entry → Option ℕ
free_entry [] = none
free_entry (e ∷ es) =
    let rest = free_entry es in
    if not e.used then some 0 else elim rest [ none ↦ none | some i ↦ some (suc i) ]

-- The entry of a venue and symbol, and the entries in which it stands.
unfoldable pub find_or_create : List Entry → ℕ → ℕ → Option ℕ × List Entry
unfolding find_entry free_entry
find_or_create es venue symbol = elim (find_entry es venue symbol) [
  | some i ↦ (some i, es)
  | none ↦ elim (free_entry es) [
    | none ↦ (none, es)
    | some i ↦ (
      some i,
      set es i (record (get_or es i empty_entry) {
        used = true;
        entry_venue = venue;
        entry_symbol = symbol;
      }),
    )
  ]
]

abbrev pub signed : Side → ℤ → ℤ
signed buy volume = volume
signed sell volume = neg volume

unfoldable pub check_and_apply : SelfTradeTracker → ℕ → ℕ → ℕ → Side → ℤ → Bool × SelfTradeTracker
unfolding find_or_create
check_and_apply t venue symbol strategy side volume =
    let (found, es) = find_or_create t.entries venue symbol in
    elim found [
      | none ↦ (true, record t { entries = es })
      | some i ↦
          let e = get_or es i empty_entry in
          if self_trade_ok true t.allow_cross_strategy_opposition e.owner strategy e.net_volume side
          then (
            true,
            record t {
              entries =
                  set es i (record e {
                    net_volume = e.net_volume +ℤ signed side volume;
                    owner = strategy;
                  });
            },
          )
          else (false, record t { entries = es })
    ]

-- ===== src/Feed/SequenceTracker.antt =====
-- include/feed/sequence_tracker.hpp: gaps in the sequence numbers of a feed.
pub mod Count
use market_microstructure_en.Base.{ℕ, Bool, true, false, ◌==◌, leb, not, if◌then◌else◌}
use market_microstructure_en.Base.Words.{add64, sub64}

pub data SequenceStatus : Type 0 where
  synchronized in_order gap stale_or_duplicate : SequenceStatus

pub record SequenceResult : Type 0 where
  pub status : SequenceStatus
  pub expected : ℕ
  pub received : ℕ
  pub lost : ℕ

pub record SequenceTracker : Type 0 where
  pub last : ℕ
  pub gaps : ℕ
  pub initialized : Bool

abbrev pub new_tracker : SequenceTracker
new_tracker = record { last = 0; gaps = 0; initialized = false }

abbrev pub result : SequenceStatus → ℕ → ℕ → ℕ → SequenceResult
result status expected received lost = record {
  status = status;
  expected = expected;
  received = received;
  lost = lost;
}

unfoldable pub observe : SequenceTracker → ℕ → SequenceResult × SequenceTracker
observe t sequence =
    let expected = add64 t.last 1 in
    let lost = sub64 sequence expected in
    if not t.initialized
    then (result synchronized sequence sequence 0, record t { initialized = true; last = sequence })
    else if sequence == expected
    then (result in_order expected sequence 0, record t { last = sequence })
    else if leb sequence t.last
    then (result stale_or_duplicate expected sequence 0, t)
    else (result gap expected sequence lost, record t { last = sequence; gaps = add64 t.gaps lost })

unfoldable pub reset : SequenceTracker → SequenceTracker
reset t = record { last = 0; gaps = 0; initialized = false }

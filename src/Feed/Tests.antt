-- ===== src/Feed/Tests.antt =====
-- The theorems on the sequence tracker and the heartbeat monitor at concrete feeds.
use market_microstructure_en.Feed.ClockOffset.{
  new_estimator, observe_clock, correct, correct-observe_clock,
}
use market_microstructure_en.Base.{◌≢◌, ◌^◌, some}
use market_microstructure_en.Base.Words.{sub64}
use market_microstructure_en.Base.{
  ℕ, ◌+◌, ◌≡◌, arith, false, List, [], ◌∷◌, if◌then◌else◌, leb, length,
}
use market_microstructure_en.Feed.HeartbeatMonitor.{
  HeartbeatMonitor, make_monitor, observe_beat, beats, beats_recover, healthy, recovering,
}

abbrev numbers : List ℕ
numbers = 11 ∷ 14 ∷ 12 ∷ []

abbrev monitor : HeartbeatMonitor
monitor = make_monitor 1000 3

abbrev later_beats : List ℕ
later_beats = 70 ∷ 80 ∷ []

beats_recover_example :
    (beats (observe_beat monitor 50 false) (60 ∷ later_beats)).state
    ≡ (if leb monitor.clean_required (length later_beats + 1) then healthy else recovering)
beats_recover_example = beats_recover monitor 50 60 later_beats

apart : sub64 750 900 ≢ 2 ^ 63
apart = omega arith

correct-observe_clock_example : correct (observe_clock new_estimator 900 750) 900 ≡ some 750
correct-observe_clock_example = correct-observe_clock 900 750 (omega arith) (omega arith) apart

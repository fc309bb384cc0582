-- ===== src/Feed/HeartbeatMonitor.antt =====
-- include/feed/heartbeat_monitor.hpp: whether a feed is alive.
use market_microstructure_en.Base.{
  ℕ, suc, ◌+◌, ◌-◌, ◌≤◌, ◌<◌, ◌≡◌, refl, sym, ap, ◌∙◌, arith, Bool, true, false, ◌||◌, not, ◌==◌,
  ltb, leb, if◌then◌else◌, List, [], ◌∷◌, length, Bool-cases, inl, inr,
}

pub data HeartbeatState : Type 0 where
  stale recovering healthy : HeartbeatState

pub record HeartbeatMonitor : Type 0 where
  pub timeout_ns : ℕ
  pub last_receive_ns : ℕ
  pub clean_required : ℕ
  pub clean_count : ℕ
  pub state : HeartbeatState

unfoldable pub make_monitor : ℕ → ℕ → HeartbeatMonitor
make_monitor timeout_ns clean_required = record {
  timeout_ns = timeout_ns;
  last_receive_ns = 0;
  clean_required = if clean_required == 0 then 1 else clean_required;
  clean_count = 0;
  state = stale;
}

-- The returned state is the monitor's.
unfoldable pub observe_beat : HeartbeatMonitor → ℕ → Bool → HeartbeatMonitor
observe_beat m receive_ns connected =
    let count = if ltb m.clean_count m.clean_required then m.clean_count + 1 else m.clean_count in
    if not connected
    then record m { last_receive_ns = receive_ns; clean_count = 0; state = stale }
    else record m {
      last_receive_ns = receive_ns;
      clean_count = count;
      state = if leb m.clean_required count then healthy else recovering;
    }

unfoldable pub poll : HeartbeatMonitor → ℕ → HeartbeatMonitor
poll m now_ns =
    if m.last_receive_ns == 0
      || ltb now_ns m.last_receive_ns
      || ltb m.timeout_ns (now_ns - m.last_receive_ns)
    then record m { clean_count = 0; state = stale }
    else m

-- A run of connected beats.
unfoldable pub beats : HeartbeatMonitor → List ℕ → HeartbeatMonitor
beats m [] = m
beats m (t ∷ ts) = beats (observe_beat m t true) ts

beats_lem :
    (m : HeartbeatMonitor) (t : ℕ) (ts : List ℕ)
    → m.clean_count ≤ m.clean_required
    → (beats m (t ∷ ts)).state
      ≡ (if leb m.clean_required (m.clean_count + length ts + 1) then healthy else recovering)
unfolding beats observe_beat
beats_lem m t [] h = elim (Bool-cases (ltb m.clean_count m.clean_required)) [
  | inl e ↦ ground arith
  | inr e ↦ ground arith
]
beats_lem m t (s ∷ ts) h = elim (Bool-cases (ltb m.clean_count m.clean_required)) [
  | inl e ↦
      let less : m.clean_count < m.clean_required = ground arith in
      let more : m.clean_count + suc (length ts) + 1 ≡ m.clean_count + 1 + length ts + 1 =
        omega arith in
      ap (λ c. (beats (observe_beat (later c) s true) ts).state) (rw e refl)
      ∙ beats_lem (later (m.clean_count + 1)) s ts (omega arith)
      ∙ ap (λ n. if leb m.clean_required n then healthy else recovering) (sym more)
  | inr e ↦
      let full : m.clean_required ≡ m.clean_count = ground arith in
      ap (λ c. (beats (observe_beat (later c) s true) ts).state) (rw e refl)
      ∙ beats_lem (later m.clean_count) s ts h
      ∙ ground arith
]
  where
    later : ℕ → HeartbeatMonitor
    later c = record m {
      last_receive_ns = t;
      clean_count = c;
      state = if leb m.clean_required c then healthy else recovering;
    }

-- After a disconnection a feed is healthy again once `clean_required` connected beats have been
-- received, and recovering before that.
pub beats_recover :
    (m : HeartbeatMonitor) (at : ℕ) (t : ℕ) (ts : List ℕ)
    → (beats (observe_beat m at false) (t ∷ ts)).state
      ≡ (if leb m.clean_required (length ts + 1) then healthy else recovering)
unfolding observe_beat
beats_recover m at t ts =
    beats_lem (record m { last_receive_ns = at; clean_count = 0; state = stale }) t ts (omega arith)
    ∙ ap (λ n. if leb m.clean_required n then healthy else recovering) (omega arith)

-- ===== src/Risk/Engine/Calm.antt =====
-- When the signals of the running system ask for no halt.
use mathlib.Core.Bool.{true≢false}
use market_microstructure_en.Base.{
  ℕ, ◌≤◌, ◌<◌, ◌≡◌, ◌≢◌, ◌↔◌, refl, ap, arith, Bool, true, false, not, ltb, leb,
}
use market_microstructure_en.Base.Int.{ℤ, leb_ℤ, ◌<ℤ◌, neg}
use market_microstructure_en.Risk.Limits.{
  HaltReason, HaltSignals, no_halt, daily_loss, drawdown, consecutive_losses, feed_stale,
  sequence_gap, backpressure, latency, reject_rate, disconnected, reconciliation, instance_lock,
  stale_epoch, disk, manual_kill, control_kill,
}
use market_microstructure_en.Risk.Engine.{RiskEngine, drawn_down, halt_if, evaluate}

-- No signal asks for a halt.
pub record Calm (e : RiskEngine) (s : HaltSignals) : Type 0 where
  pub pnl_ok : neg e.limits.max_daily_loss <ℤ s.pnl
  pub drawdown_ok : drawn_down e.limits s ≡ false
  pub losses_ok : s.losses < e.limits.max_consecutive_losses
  pub fresh_ok : s.feed_age_ms < e.limits.max_staleness_ms
  pub gap_ok : s.gap ≡ false
  pub ring_ok : s.ring_percent < 100
  pub latency_ok : s.latency_breach ≡ false
  pub rejects_ok : s.reject_rate_bp ≤ e.limits.max_reject_rate_bp
  pub connected_ok : s.connected ≡ true
  pub reconciled_ok : s.reconciliation_break ≡ false
  pub lock_ok : s.lock_held ≡ true
  pub epoch_ok : s.epoch_stale ≡ false
  pub disk_ok : e.limits.min_free_bytes ≤ s.disk_free_bytes
  pub hand_ok : s.killed_by_hand ≡ false
  pub control_ok : s.killed_by_control ≡ false

halt_if-none :
    (bad : Bool) (reason rest : HaltReason)
    → reason ≢ no_halt
    → halt_if bad reason rest ≡ no_halt
    → (bad ≡ false) × (rest ≡ no_halt)
unfolding halt_if
halt_if-none true reason rest d h = absurd (d h)
halt_if-none false reason rest d h = (refl, h)

halt_if-pass :
    (bad : Bool) (reason rest : HaltReason)
    → bad ≡ false
    → rest ≡ no_halt
    → halt_if bad reason rest ≡ no_halt
unfolding halt_if
halt_if-pass true reason rest b h = absurd (true≢false b)
halt_if-pass false reason rest b h = h

not_leb : (a b : ℤ) → leb_ℤ a b ≡ false → b <ℤ a
not_leb a b h = ground arith

leb_not : (a b : ℤ) → b <ℤ a → leb_ℤ a b ≡ false
leb_not a b h = ground arith

above : (a b : ℕ) → leb b a ≡ false → a < b
above a b h = ground arith

above_not : (a b : ℕ) → a < b → leb b a ≡ false
above_not a b h = ground arith

below : (a b : ℕ) → ltb b a ≡ false → a ≤ b
below a b h = ground arith

below_not : (a b : ℕ) → a ≤ b → ltb b a ≡ false
below_not a b h = ground arith

true_of_not : (b : Bool) → not b ≡ false → b ≡ true
true_of_not b h = ground arith

evaluate-Calm : (e : RiskEngine) (s : HaltSignals) → evaluate e s ≡ no_halt → Calm e s
unfolding evaluate
evaluate-Calm e s h =
    let (b0, h0) = halt_if-none _ daily_loss _ (ground arith) h in
    let (b1, h1) = halt_if-none _ drawdown _ (ground arith) h0 in
    let (b2, h2) = halt_if-none _ consecutive_losses _ (ground arith) h1 in
    let (b3, h3) = halt_if-none _ feed_stale _ (ground arith) h2 in
    let (b4, h4) = halt_if-none _ sequence_gap _ (ground arith) h3 in
    let (b5, h5) = halt_if-none _ backpressure _ (ground arith) h4 in
    let (b6, h6) = halt_if-none _ latency _ (ground arith) h5 in
    let (b7, h7) = halt_if-none _ reject_rate _ (ground arith) h6 in
    let (b8, h8) = halt_if-none _ disconnected _ (ground arith) h7 in
    let (b9, h9) = halt_if-none _ reconciliation _ (ground arith) h8 in
    let (b10, h10) = halt_if-none _ instance_lock _ (ground arith) h9 in
    let (b11, h11) = halt_if-none _ stale_epoch _ (ground arith) h10 in
    let (b12, h12) = halt_if-none _ disk _ (ground arith) h11 in
    let (b13, h13) = halt_if-none _ manual_kill _ (ground arith) h12 in
    let (b14, h14) = halt_if-none _ control_kill _ (ground arith) h13 in
    record {
      pnl_ok = not_leb s.pnl (neg e.limits.max_daily_loss) b0;
      drawdown_ok = b1;
      losses_ok = above s.losses e.limits.max_consecutive_losses b2;
      fresh_ok = above s.feed_age_ms e.limits.max_staleness_ms b3;
      gap_ok = b4;
      ring_ok = above s.ring_percent 100 b5;
      latency_ok = b6;
      rejects_ok = below s.reject_rate_bp e.limits.max_reject_rate_bp b7;
      connected_ok = true_of_not s.connected b8;
      reconciled_ok = b9;
      lock_ok = true_of_not s.lock_held b10;
      epoch_ok = b11;
      disk_ok = below e.limits.min_free_bytes s.disk_free_bytes b12;
      hand_ok = b13;
      control_ok = b14;
    }

Calm-evaluate : (e : RiskEngine) (s : HaltSignals) → Calm e s → evaluate e s ≡ no_halt
unfolding evaluate
Calm-evaluate e s c = halt_if-pass _ _ _ (leb_not s.pnl (neg e.limits.max_daily_loss) c.pnl_ok) (
    halt_if-pass _ _ _ (c.drawdown_ok) (
      halt_if-pass _ _ _ (above_not s.losses e.limits.max_consecutive_losses c.losses_ok) (
        halt_if-pass _ _ _ (above_not s.feed_age_ms e.limits.max_staleness_ms c.fresh_ok) (
          halt_if-pass _ _ _ (c.gap_ok) (
            halt_if-pass _ _ _ (above_not s.ring_percent 100 c.ring_ok) (
              halt_if-pass _ _ _ (c.latency_ok) (
                halt_if-pass _ _ _
                  (below_not s.reject_rate_bp e.limits.max_reject_rate_bp c.rejects_ok)
                  (halt_if-pass _ _ _ (ap not c.connected_ok) (
                    halt_if-pass _ _ _ (c.reconciled_ok) (
                      halt_if-pass _ _ _ (ap not c.lock_ok) (
                        halt_if-pass _ _ _ (c.epoch_ok) (
                          halt_if-pass _ _ _
                            (below_not e.limits.min_free_bytes s.disk_free_bytes c.disk_ok)
                            (halt_if-pass _ _ _ (c.hand_ok)
                              (halt_if-pass _ _ _ (c.control_ok) (refl)))))))))))))))

-- The evaluation of the signals names no reason to halt if and only if none of the signals asks for one.
pub evaluate_iff : (e : RiskEngine) (s : HaltSignals) → (evaluate e s ≡ no_halt) ↔ Calm e s
evaluate_iff e s = (evaluate-Calm e s, Calm-evaluate e s)

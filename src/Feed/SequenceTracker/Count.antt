-- ===== src/Feed/SequenceTracker/Count.antt =====
-- What the gaps that the tracker counts add up to.
use market_microstructure_en.Base.{ℕ, ◌+◌, ◌<◌, ◌≡◌, true, List, [], ◌∷◌}
use market_microstructure_en.Base.Words.{u64_mod}
use market_microstructure_en.Feed.SequenceTracker.{
  SequenceTracker, SequenceStatus, stale_or_duplicate, observe,
}

abbrev pub advances : SequenceStatus → ℕ
advances stale_or_duplicate = 0
advances _ = 1

-- The number of messages of a feed that moved the tracker forward, and the tracker behind them.
unfoldable pub observe_all : SequenceTracker → List ℕ → ℕ × SequenceTracker
observe_all t [] = (0, t)
observe_all t (s ∷ ss) =
    let (r, t') = observe t s in let (n, t'') = observe_all t' ss in (advances r.status + n, t'')

-- A sequence number of a message: positive, and 64 bits wide.
abbrev pub Numbered : ℕ → Type 0
Numbered s = (0 < s) × (s < u64_mod)

pub record Tracked (first n : ℕ) (t : SequenceTracker) : Type 0 where
  pub running : t.initialized ≡ true
  pub word : t.last < u64_mod
  pub balance : first + n + t.gaps ≡ t.last

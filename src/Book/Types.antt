-- ===== src/Book/Types.antt =====
-- include/book/book_types.hpp: sides, levels, limits and tolerance.
use market_microstructure_en.Base.{ℕ, ◌^◌, Bool, ◌&&◌}
use market_microstructure_en.Base.Int.{ℤ, pos, leb_ℤ}

abbrev pub max_book_depth : ℕ
max_book_depth = 32

pub data Side : Type 0 where
  bid ask : Side

pub data DeltaAction : Type 0 where
  add modify remove : DeltaAction

pub data BookStatus : Type 0 where
  ok crossed_tolerated crossed_halt rebase_required rejected : BookStatus

pub record Level : Type 0 where
  pub price_ticks : ℤ
  pub level_size : ℤ

abbrev pub no_level : Level
no_level = record { price_ticks = pos 0; level_size = pos 0 }

pub record SymbolLimits : Type 0 where
  pub min_price_ticks : ℤ
  pub max_price_ticks : ℤ
  pub max_spread_ticks : ℤ
  pub max_size : ℤ

abbrev pub default_limits : SymbolLimits
default_limits = record {
  min_price_ticks = pos 1;
  max_price_ticks = pos (2 ^ 56);
  max_spread_ticks = pos (2 ^ 40);
  max_size = pos (2 ^ 56);
}

unfoldable pub price_in_range : SymbolLimits → ℤ → Bool
price_in_range limits price =
    leb_ℤ limits.min_price_ticks price && leb_ℤ price limits.max_price_ticks

unfoldable pub size_in_range : SymbolLimits → ℤ → Bool
size_in_range limits size = leb_ℤ (pos 0) size && leb_ℤ size limits.max_size

pub record CrossedTolerance : Type 0 where
  pub max_consecutive_updates : ℕ
  pub max_duration_ns : ℕ

abbrev pub default_tolerance : CrossedTolerance
default_tolerance = record { max_consecutive_updates = 8; max_duration_ns = 50000000 }

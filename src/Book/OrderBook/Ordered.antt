-- ===== src/Book/OrderBook/Ordered.antt =====
-- The order of the levels in numbers: the bids of a book fall, its asks rise.
use market_microstructure_en.Base.{ℕ, ◌≤◌, ◌≡◌, Bool, true, List, [], ◌∷◌, All, length}
use market_microstructure_en.Base.Int.{ℤ, ltb_ℤ}
use market_microstructure_en.Book.Types.{
  bid, ask, Level, SymbolLimits, CrossedTolerance, max_book_depth,
}
use market_microstructure_en.Book.OrderBook.{better, OrderBook, make_book}
use market_microstructure_en.Book.OrderBook.Ladder.{Sorted}
use market_microstructure_en.Book.OrderBook.Keep.{
  BookInv, make_book-Inv, Update, run_updates, run_updates-Inv,
}

-- Every level stands in the relation to each that follows it.
abbrev pub InOrder : (ℤ → ℤ → Bool) → List Level → Type 0
InOrder before [] = Unit
InOrder before (x ∷ xs) =
    All (λ y. before x.price_ticks y.price_ticks ≡ true) xs × InOrder before xs

pub record Ordered (b : OrderBook) : Type 0 where
  pub bids_fall : InOrder (λ p q. ltb_ℤ q p) b.bids
  pub asks_rise : InOrder (λ p q. ltb_ℤ p q) b.asks
  pub bids_bounded : length b.bids ≤ max_book_depth
  pub asks_bounded : length b.asks ≤ max_book_depth

bids_fall_lem : (xs : List Level) → Sorted bid xs → InOrder (λ p q. ltb_ℤ q p) xs
unfolding Sorted better
bids_fall_lem [] s = tt
bids_fall_lem (x ∷ xs) s = (s.0, bids_fall_lem xs s.1)

asks_rise_lem : (xs : List Level) → Sorted ask xs → InOrder (λ p q. ltb_ℤ p q) xs
unfolding Sorted better
asks_rise_lem [] s = tt
asks_rise_lem (x ∷ xs) s = (s.0, asks_rise_lem xs s.1)

Inv-Ordered : (b : OrderBook) → BookInv b → Ordered b
Inv-Ordered b v = record {
  bids_fall = bids_fall_lem b.bids v.bids_ok.sorted;
  asks_rise = asks_rise_lem b.asks v.asks_ok.sorted;
  bids_bounded = v.bids_ok.bounded;
  asks_bounded = v.asks_ok.bounded;
}

-- Whatever quotes, deltas and rebases a new book receives, its bids fall strictly, its asks rise
-- strictly, and neither side has more than `max_book_depth` levels.
pub run_updates-Ordered :
    (symbol_id : ℕ) (limits : SymbolLimits) (tolerance : CrossedTolerance) (us : List Update)
    → Ordered (run_updates (make_book symbol_id limits tolerance) us)
run_updates-Ordered symbol_id limits tolerance us =
    Inv-Ordered _ (run_updates-Inv _ us (make_book-Inv symbol_id limits tolerance))

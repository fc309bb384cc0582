-- ===== src/Book/Tests.antt =====
-- The theorems on the order book at a concrete book.
use market_microstructure_en.Base.{
  ◌<◌, ◌≡◌, refl, arith, true, List, [], ◌∷◌, none, some, if◌then◌else◌, ltb,
}
use market_microstructure_en.Base.Int.{ℤ, pos, ◌==ℤ◌}
use market_microstructure_en.Book.Types.{
  bid, ask, add, modify, remove, crossed_halt, crossed_tolerated, default_limits, default_tolerance,
  max_book_depth, price_in_range, size_in_range,
}
use market_microstructure_en.Book.OrderBook.{
  OrderBook, make_book, levels_of, depth, better, apply_delta, is_crossed, has_both_sides,
  evaluate_crossed,
}
use market_microstructure_en.Book.OrderBook.Keep.{
  BookInv, make_book-Inv, Update, deltas, run_updates,
}
use market_microstructure_en.Book.OrderBook.Ordered.{Ordered, run_updates-Ordered}
use market_microstructure_en.Base.{is_some}
use market_microstructure_en.Book.OrderBook.Removals.{
  Removed, apply_delta_removes, apply_delta_diverged,
}
use market_microstructure_en.Book.OrderBook.Sizes.{size_at, other, apply_delta_sets}
use market_microstructure_en.Book.OrderBook.Ladder.{Sorted}
use market_microstructure_en.Book.OrderBook.Crossed.{evaluations, crossed_limit}

abbrev book0 : OrderBook
book0 = make_book 1 default_limits default_tolerance

abbrev updates : List Update
updates =
    deltas bid (pos 100) (pos 5) add 10
    ∷ deltas bid (pos 101) (pos 6) add 11
    ∷ deltas ask (pos 103) (pos 7) add 12
    ∷ []

-- Two bids and one ask.
abbrev book1 : OrderBook
book1 = run_updates book0 updates

book0-Inv : BookInv book0
book0-Inv = make_book-Inv 1 default_limits default_tolerance

run_updates-Ordered_example : Ordered book1
run_updates-Ordered_example = run_updates-Ordered 1 default_limits default_tolerance updates

price_ok : price_in_range book0.limits (pos 100) ≡ true
unfolding price_in_range make_book
price_ok = refl

size_ok : size_in_range book0.limits (pos 5) ≡ true
unfolding size_in_range make_book
size_ok = refl

zero_ok : size_in_range book0.limits (pos 0) ≡ true
unfolding size_in_range make_book
zero_ok = refl

room : depth book0 bid < max_book_depth
unfolding depth levels_of make_book
room = omega arith

apply_delta_sets_example :
    ((q : ℤ)
      → size_at q (levels_of bid (apply_delta book0 bid (pos 100) (pos 5) add 10).1)
        ≡ (if pos 100 ==ℤ q then some (pos 5) else size_at q (levels_of bid book0)))
    × (levels_of (other bid) (apply_delta book0 bid (pos 100) (pos 5) add 10).1
        ≡ levels_of (other bid) book0)
apply_delta_sets_example =
    apply_delta_sets book0 bid (pos 100) (pos 5) add 10 price_ok size_ok refl room

apply_delta_diverged_example :
    Removed book0 bid
      (pos 100)
      (is_some (size_at (pos 100) (levels_of bid book0)))
      (apply_delta book0 bid (pos 100) (pos 0) modify 10)
apply_delta_diverged_example =
    apply_delta_diverged book0 bid (pos 100) (pos 0) modify 10 price_ok zero_ok refl

-- A book with one level on each side, as a quote leaves it, with bid and ask crossed.
abbrev book2 : OrderBook
book2 = record book0 {
  bids =
      record { price_ticks = pos 101; level_size = pos 5 }
      ∷ record { price_ticks = pos 100; level_size = pos 2 }
      ∷ [];
  asks = record { price_ticks = pos 99; level_size = pos 6 } ∷ [];
}

book2-Inv : BookInv book2
unfolding Sorted better make_book
book2-Inv = record {
  bids_ok = record { sorted = ((refl, tt), (tt, tt)); bounded = omega arith };
  asks_ok = record { sorted = (tt, tt); bounded = omega arith };
}

price2_ok : price_in_range book2.limits (pos 100) ≡ true
unfolding price_in_range make_book
price2_ok = refl

size2_ok : size_in_range book2.limits (pos 0) ≡ true
unfolding size_in_range make_book
size2_ok = refl

present : size_at (pos 100) (levels_of bid book2) ≡ some (pos 2)
unfolding size_at levels_of make_book
present = refl

apply_delta_removes_example :
    ((q : ℤ)
      → size_at q (levels_of bid (apply_delta book2 bid (pos 100) (pos 0) remove 10).1)
        ≡ (if pos 100 ==ℤ q then none else size_at q (levels_of bid book2)))
    × (levels_of (other bid) (apply_delta book2 bid (pos 100) (pos 0) remove 10).1
        ≡ levels_of (other bid) book2)
apply_delta_removes_example =
    apply_delta_removes book2 bid (pos 100) (pos 0) (pos 2) remove 10 book2-Inv price2_ok size2_ok
      refl present

two_bids : 1 < depth book2 bid
unfolding depth levels_of
two_bids = omega arith

crossed2 : is_crossed book2 ≡ true
unfolding is_crossed has_both_sides
crossed2 = refl

fresh2 : book2.crossed_updates ≡ 0
unfolding make_book
fresh2 = refl

crossed_limit_example :
    (evaluate_crossed (evaluations 8 book2 50) 50).0
    ≡ (if ltb book2.tolerance.max_consecutive_updates 9 then crossed_halt else crossed_tolerated)
crossed_limit_example = crossed_limit 8 book2 50 crossed2 fresh2 (omega arith)

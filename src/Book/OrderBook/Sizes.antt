-- ===== src/Book/OrderBook/Sizes.antt =====
-- The book as a map from prices to sizes, and its best price.
use market_microstructure_en.Base.{
  ℕ, zero, suc, ◌<◌, ◌≡◌, refl, sym, ap, ◌∙◌, arith, ltb, ◌||◌, true, false, if◌then◌else◌, List,
  [], ◌∷◌, All, All-get_or, Bool-cases, inl, inr, Option, none, some, get_or, set, length,
}
use market_microstructure_en.Base.Int.{ℤ, pos, ◌==ℤ◌}
use market_microstructure_en.Base.Words.{add64}
use market_microstructure_en.Book.Types.{
  Side, bid, ask, Level, no_level, max_book_depth, DeltaAction, price_in_range, size_in_range,
}
use market_microstructure_en.Book.OrderBook.{
  find_level, erase_at, better, position_of, insert_at, put, OrderBook, levels_of, level, best,
  depth, with_levels, finish_update, evaluate_crossed, count_crossed, is_crossed, put_level,
  is_remove, apply_delta,
}
use market_microstructure_en.Book.OrderBook.Ladder.{
  Before, Sorted, find_level_cons, put_cases, resized, new_level, take-all, length-insert_at,
}
use market_microstructure_en.Book.OrderBook.Keep.{BookInv, side_ok}

-- The size that a side shows at a price.
unfoldable pub size_at : ℤ → List Level → Option ℤ
size_at price [] = none
size_at price (x ∷ xs) =
    let rest = size_at price xs in if x.price_ticks ==ℤ price then some x.level_size else rest

-- Where a search in a list with a head ends.
pub find_level_zero :
    (x : Level) (xs : List Level) (p : ℤ)
    → find_level (x ∷ xs) p ≡ some 0
    → (x.price_ticks ==ℤ p) ≡ true
unfolding find_level
find_level_zero x xs p h = ground arith

pub find_level-suc :
    (x : Level) (xs : List Level) (p : ℤ) (i : ℕ)
    → find_level (x ∷ xs) p ≡ some (suc i)
    → ((x.price_ticks ==ℤ p) ≡ false) × (find_level xs p ≡ some i)
unfolding find_level
find_level-suc x xs p i h = (ground arith, ground arith)

equal_prices : (a p q : ℤ) → (a ==ℤ p) ≡ true → (a ==ℤ q) ≡ (p ==ℤ q)
equal_prices a p q h = ground arith

size_at-resized :
    (p q size : ℤ) (xs : List Level) (i : ℕ)
    → find_level xs p ≡ some i
    → size_at q (set xs i (resized (get_or xs i no_level) size))
      ≡ (if p ==ℤ q then some size else size_at q xs)
unfolding size_at find_level
size_at-resized p q size [] i h = absurd (ground arith)
size_at-resized p q size (x ∷ xs) zero h =
    rw (equal_prices x.price_ticks p q (find_level_zero x xs p h)) (ground arith)
size_at-resized p q size (x ∷ xs) (suc i) h =
    let (ne, rest) = find_level-suc x xs p i h in
    rw (size_at-resized p q size xs i rest) (ground arith)

size_at-insert_at :
    (n : ℕ) (e : Level) (q : ℤ) (xs : List Level)
    → find_level xs e.price_ticks ≡ none
    → size_at q (insert_at n e xs)
      ≡ (if e.price_ticks ==ℤ q then some e.level_size else size_at q xs)
unfolding size_at insert_at
size_at-insert_at zero e q xs h = refl
size_at-insert_at (suc n) e q [] h = refl
size_at-insert_at (suc n) e q (x ∷ xs) h =
    let (ne, rest) = find_level_cons x xs e.price_ticks h in
    rw (size_at-insert_at n e q xs rest) (ground arith)

-- No level behind a price shows it.
better_ne : (side : Side) (p q : ℤ) → better side p q ≡ true → (q ==ℤ p) ≡ false
unfolding better
better_ne bid p q h = ground arith
better_ne ask p q h = ground arith

size_at-behind :
    (side : Side) (p : ℤ) (xs : List Level) → All (Before side p) xs → size_at p xs ≡ none
unfolding size_at
size_at-behind side p [] a = refl
size_at-behind side p (x ∷ xs) a =
    rw (better_ne side p x.price_ticks a.0) (size_at-behind side p xs a.1)

size_at-same : (p q : ℤ) (xs : List Level) → (p ==ℤ q) ≡ true → size_at q xs ≡ size_at p xs
unfolding size_at
size_at-same p q [] h = refl
size_at-same p q (x ∷ xs) h = rw (size_at-same p q xs h) (ground arith)

pub size_at-erase_at :
    (side : Side) (p q : ℤ) (xs : List Level) (i : ℕ)
    → Sorted side xs
    → find_level xs p ≡ some i
    → size_at q (erase_at xs i) ≡ (if p ==ℤ q then none else size_at q xs)
unfolding size_at erase_at find_level Sorted
size_at-erase_at side p q [] i s h = absurd (ground arith)
size_at-erase_at side p q (x ∷ xs) zero s h =
    let same = find_level_zero x xs p h in
    elim (Bool-cases (p ==ℤ q)) [
      | inl e ↦ rw e (
          size_at-same x.price_ticks q xs (ground arith) ∙ size_at-behind side x.price_ticks xs s.0)
      | inr e ↦
          let ne : (x.price_ticks ==ℤ q) ≡ false = equal_prices x.price_ticks p q same ∙ e in
          rw (e, ne) refl
    ]
size_at-erase_at side p q (x ∷ xs) (suc i) s h =
    let (ne, rest) = find_level-suc x xs p i h in
    rw (size_at-erase_at side p q xs i s.1 rest) (ground arith)

pub put-size_at :
    (side : Side) (price size q : ℤ) (xs : List Level)
    → length xs < max_book_depth
    → (ys : List Level) × (put side price size xs ≡ some ys)
      × (size_at q ys ≡ (if price ==ℤ q then some size else size_at q xs))
put-size_at side price size q xs h = elim (put_cases side price size xs (omega arith)) [
  | inl (i, found, _, way) ↦ (_, way, size_at-resized price q size xs i found)
  | inr (inl (_, long, _)) ↦ absurd (omega arith)
  | inr (inr (missing, way)) ↦
      let n : ℕ = position_of side price xs in
      let e : Level = new_level price size in
      (
        insert_at n e xs,
        way
            ∙ ap some (
                take-all max_book_depth (insert_at n e xs)
                  (omega (arith, length-insert_at n e xs))),
        size_at-insert_at n e q xs missing,
      )
]

abbrev pub other : Side → Side
other bid = ask
other ask = bid

pub finish_levels :
    (b : OrderBook) (ts_ns : ℕ) (side : Side)
    → levels_of side (finish_update b ts_ns).1 ≡ levels_of side b
unfolding finish_update evaluate_crossed count_crossed levels_of
finish_levels b ts_ns bid =
    elim (Bool-cases (is_crossed (record b { updates = add64 b.updates 1 }))) [
      | inl e ↦ rw e
      | inr e ↦ rw e
    ]
finish_levels b ts_ns ask =
    elim (Bool-cases (is_crossed (record b { updates = add64 b.updates 1 }))) [
      | inl e ↦ rw e
      | inr e ↦ rw e
    ]

pub with_levels_same :
    (side : Side) (b : OrderBook) (levels : List Level)
    → levels_of side (with_levels side b levels) ≡ levels
unfolding with_levels levels_of
with_levels_same bid b levels = refl
with_levels_same ask b levels = refl

pub with_levels-other :
    (side : Side) (b : OrderBook) (levels : List Level)
    → levels_of (other side) (with_levels side b levels) ≡ levels_of (other side) b
unfolding with_levels levels_of
with_levels-other bid b levels = refl
with_levels-other ask b levels = refl

apply_delta-put :
    (b : OrderBook) (side : Side) (price size : ℤ) (action : DeltaAction) (ts_ns : ℕ)
    → price_in_range b.limits price ≡ true
    → size_in_range b.limits size ≡ true
    → (size ==ℤ pos 0 || is_remove action) ≡ false
    → apply_delta b side price size action ts_ns ≡ put_level b side price size ts_ns
unfolding apply_delta
apply_delta-put b side price size action ts_ns p s r = rw (p, s, r)

-- An add or modify of a nonzero size, with price and size in range of the limits, on a side that has room:
-- the side then shows that size at that price, what it shows at other prices and the other side are as
-- before.
pub apply_delta_sets :
    (b : OrderBook) (side : Side) (price size : ℤ) (action : DeltaAction) (ts_ns : ℕ)
    → price_in_range b.limits price ≡ true
    → size_in_range b.limits size ≡ true
    → (size ==ℤ pos 0 || is_remove action) ≡ false
    → depth b side < max_book_depth
    → ((q : ℤ)
        → size_at q (levels_of side (apply_delta b side price size action ts_ns).1)
          ≡ (if price ==ℤ q then some size else size_at q (levels_of side b)))
      × (levels_of (other side) (apply_delta b side price size action ts_ns).1
          ≡ levels_of (other side) b)
unfolding put_level depth
apply_delta_sets b side price size action ts_ns p s r room =
    let (ys, way, _) = put-size_at side price size price (levels_of side b) room in
    rw (apply_delta-put b side price size action ts_ns p s r) (
      rw (way, put_level)
        (
          λ q.
              let (zs, way', shown) = put-size_at side price size q (levels_of side b) room in
              let same : zs ≡ ys = cc in
              ap (size_at q) (finish_levels _ ts_ns side ∙ with_levels_same side b ys ∙ sym same)
              ∙ shown,
          finish_levels _ ts_ns (other side) ∙ with_levels-other side b ys,
        ))

All-get_or-Before :
    (side : Side) (p : ℤ) (xs : List Level) (i : ℕ)
    → i < length xs
    → All (Before side p) xs
    → better side p (get_or xs i no_level).price_ticks ≡ true
All-get_or-Before side p xs i h a = All-get_or (Before side p) xs i no_level h a

head_better :
    (side : Side) (xs : List Level) (i : ℕ)
    → Sorted side xs
    → suc i < length xs
    → better side (get_or xs 0 no_level).price_ticks (get_or xs (suc i) no_level).price_ticks ≡ true
unfolding Sorted
head_better side [] i s h = absurd (omega arith)
head_better side (x ∷ xs) i s h = All-get_or-Before side x.price_ticks xs i (omega arith) s.0

-- The best level of a side is strictly better than any other level that it shows.
pub best-better :
    (b : OrderBook) (side : Side) (i : ℕ)
    → BookInv b
    → 0 < i
    → i < depth b side
    → better side (best b side).price_ticks (level b side i).price_ticks ≡ true
unfolding best level depth
best-better b side zero v h k = absurd (omega arith)
best-better b side (suc i) v h k =
    let first : ltb 0 (length (levels_of side b)) ≡ true = ground arith in
    let inside : ltb (suc i) (length (levels_of side b)) ≡ true = ground arith in
    rw (first, inside) (head_better side (levels_of side b) i (side_ok side b v).sorted k)

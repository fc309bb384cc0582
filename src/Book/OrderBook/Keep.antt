-- ===== src/Book/OrderBook/Keep.antt =====
-- Every update keeps both sides of the book ordered and bounded.
use mathlib.Core.Path.{subst}
use market_microstructure_en.Base.{
  ℕ, zero, suc, ◌≤◌, ◌≡◌, arith, not, ◌||◌, true, List, [], ◌∷◌, All, Bool-cases, inl, inr, some,
  Option-cases, get_or, set, take, length, length-set, length-take,
}
use market_microstructure_en.Base.Int.{ℤ, pos, ltb_ℤ, ◌==ℤ◌, ◌-ℤ◌}
use market_microstructure_en.Base.Words.{add64}
use market_microstructure_en.Book.Types.{
  Side, bid, ask, Level, no_level, max_book_depth, DeltaAction, SymbolLimits, CrossedTolerance,
  price_in_range, size_in_range,
}
use market_microstructure_en.Book.OrderBook.{
  find_level, erase_at, better, position_of, insert_at, put, OrderBook, make_book, levels_of,
  with_levels, finish_update, evaluate_crossed, count_crossed, is_crossed, reject, request_rebase,
  clear, put_level, remove_level, is_remove, apply_delta, apply_quote,
}
use market_microstructure_en.Book.OrderBook.Ladder.{
  Before, Sorted, LadderInv, Sorted-take, insert_at-Sorted, put_cases, resized, new_level,
}

set_size-All :
    (P : ℤ → Type 0) (xs : List Level) (i : ℕ) (size : ℤ)
    → All (λ x. P x.price_ticks) xs
    → All (λ x. P x.price_ticks) (set xs i (resized (get_or xs i no_level) size))
set_size-All P [] i size a = tt
set_size-All P (x ∷ xs) zero size a = a
set_size-All P (x ∷ xs) (suc i) size a = (a.0, set_size-All P xs i size a.1)

-- A level that changes its size stays in order.
set_size-Sorted :
    (side : Side) (xs : List Level) (i : ℕ) (size : ℤ)
    → Sorted side xs
    → Sorted side (set xs i (resized (get_or xs i no_level) size))
unfolding Sorted
set_size-Sorted side [] i size s = tt
set_size-Sorted side (x ∷ xs) zero size s = s
set_size-Sorted side (x ∷ xs) (suc i) size s = (
  set_size-All (λ q. better side x.price_ticks q ≡ true) xs i size s.0,
  set_size-Sorted side xs i size s.1,
)

erase_at-All {κ} : (P : Level → Type κ) (xs : List Level) (i : ℕ) → All P xs → All P (erase_at xs i)
unfolding erase_at
erase_at-All P [] i a = tt
erase_at-All P (x ∷ xs) zero a = a.1
erase_at-All P (x ∷ xs) (suc i) a = (a.0, erase_at-All P xs i a.1)

erase_at-Sorted :
    (side : Side) (xs : List Level) (i : ℕ) → Sorted side xs → Sorted side (erase_at xs i)
unfolding Sorted erase_at
erase_at-Sorted side [] i s = tt
erase_at-Sorted side (x ∷ xs) zero s = s.1
erase_at-Sorted side (x ∷ xs) (suc i) s =
    (erase_at-All (Before side x.price_ticks) xs i s.0, erase_at-Sorted side xs i s.1)

length-erase_at-le : (xs : List Level) (i : ℕ) → length (erase_at xs i) ≤ length xs
unfolding erase_at
length-erase_at-le [] i = omega arith
length-erase_at-le (x ∷ xs) zero = omega arith
length-erase_at-le (x ∷ xs) (suc i) = omega (arith, length-erase_at-le xs i)

-- The removal of a level keeps the order and the bound of its side.
pub erase_at-Ladder :
    (side : Side) (xs : List Level) (i : ℕ) → LadderInv side xs → LadderInv side (erase_at xs i)
erase_at-Ladder side xs i v = record {
  sorted = erase_at-Sorted side xs i v.sorted;
  bounded = omega (arith, v.bounded, length-erase_at-le xs i);
}

-- Adding or resizing a level keeps the order and the bound of its side.
put-Ladder :
    (side : Side) (price size : ℤ) (xs ys : List Level)
    → LadderInv side xs
    → put side price size xs ≡ some ys
    → LadderInv side ys
put-Ladder side price size xs ys v h = elim (put_cases side price size xs v.bounded) [
  | inl (i, q, lt, way) ↦
      let same : set xs i (resized (get_or xs i no_level) size) ≡ ys = cc in
      subst (LadderInv side) same (record {
        sorted = set_size-Sorted side xs i size v.sorted;
        bounded = omega (arith, v.bounded, length-set xs i (resized (get_or xs i no_level) size));
      })
  | inr (inl (_, _, way)) ↦ absurd (cc)
  | inr (inr (q, way)) ↦
      let n : ℕ = position_of side price xs in
      let e : Level = new_level price size in
      let same : take max_book_depth (insert_at n e xs) ≡ ys = cc in
      subst (LadderInv side) same (record {
        sorted = Sorted-take side max_book_depth _ (insert_at-Sorted side e xs q v.sorted);
        bounded = omega (arith, length-take max_book_depth (insert_at n e xs));
      })
]

-- Both sides are in order and within the window.
pub record BookInv (b : OrderBook) : Type 0 where
  pub bids_ok : LadderInv bid b.bids
  pub asks_ok : LadderInv ask b.asks

pub make_book-Inv :
    (symbol_id : ℕ) (limits : SymbolLimits) (tolerance : CrossedTolerance)
    → BookInv (make_book symbol_id limits tolerance)
unfolding make_book Sorted
make_book-Inv symbol_id limits tolerance = record {
  bids_ok = record { sorted = tt; bounded = omega arith };
  asks_ok = record { sorted = tt; bounded = omega arith };
}

finish_update-Inv : (b : OrderBook) (ts_ns : ℕ) → BookInv b → BookInv (finish_update b ts_ns).1
unfolding finish_update evaluate_crossed count_crossed
finish_update-Inv b ts_ns v =
    elim (Bool-cases (is_crossed (record b { updates = add64 b.updates 1 }))) [
      | inl e ↦ rw e (record { bids_ok = v.bids_ok; asks_ok = v.asks_ok })
      | inr e ↦ rw e (record { bids_ok = v.bids_ok; asks_ok = v.asks_ok })
    ]

reject-Inv : (b : OrderBook) → BookInv b → BookInv (reject b).1
unfolding reject
reject-Inv b v = record { bids_ok = v.bids_ok; asks_ok = v.asks_ok }

request_rebase-Inv : (b : OrderBook) (price : ℤ) → BookInv (request_rebase b price)
unfolding request_rebase clear Sorted
request_rebase-Inv b price = record {
  bids_ok = record { sorted = tt; bounded = omega arith };
  asks_ok = record { sorted = tt; bounded = omega arith };
}

pub side_ok : (side : Side) (b : OrderBook) → BookInv b → LadderInv side (levels_of side b)
unfolding levels_of
side_ok bid b v = v.bids_ok
side_ok ask b v = v.asks_ok

with_levels-Inv :
    (side : Side) (b : OrderBook) (levels : List Level)
    → LadderInv side levels
    → BookInv b
    → BookInv (with_levels side b levels)
unfolding with_levels
with_levels-Inv bid b levels l v = record { bids_ok = l; asks_ok = v.asks_ok }
with_levels-Inv ask b levels l v = record { bids_ok = v.bids_ok; asks_ok = l }

put_level-Inv :
    (b : OrderBook) (side : Side) (price size : ℤ) (ts_ns : ℕ)
    → BookInv b
    → BookInv (put_level b side price size ts_ns).1
unfolding put_level
put_level-Inv b side price size ts_ns v =
    elim (Option-cases (put side price size (levels_of side b))) [
      | inl e ↦
          rw (e, put_level)
            (finish_update-Inv _ ts_ns (record { bids_ok = v.bids_ok; asks_ok = v.asks_ok }))
      | inr (ys, e) ↦
          rw (e, put_level)
            (finish_update-Inv _ ts_ns (
              with_levels-Inv side b ys
                (put-Ladder side price size (levels_of side b) ys (side_ok side b v) e) v))
    ]

remove_level-Inv :
    (b : OrderBook) (side : Side) (price : ℤ) (ts_ns : ℕ)
    → BookInv b
    → BookInv (remove_level b side price ts_ns).1
unfolding remove_level
remove_level-Inv b side price ts_ns v = elim (Option-cases (find_level (levels_of side b) price)) [
  | inl e ↦ rw (e, remove_level) (request_rebase-Inv b price)
  | inr (i, e) ↦
      rw (e, remove_level)
        (finish_update-Inv _ ts_ns (
          with_levels-Inv side b _ (erase_at-Ladder side (levels_of side b) i (side_ok side b v))
            v))
]

apply_delta-Inv :
    (b : OrderBook) (side : Side) (price size : ℤ) (action : DeltaAction) (ts_ns : ℕ)
    → BookInv b
    → BookInv (apply_delta b side price size action ts_ns).1
unfolding apply_delta
apply_delta-Inv b side price size action ts_ns v =
    elim (Bool-cases (not (price_in_range b.limits price) || not (size_in_range b.limits size))) [
      | inl e ↦ rw e (reject-Inv b v)
      | inr e ↦ rw e (elim (Bool-cases (size ==ℤ pos 0 || is_remove action)) [
        | inl r ↦ rw r (remove_level-Inv b side price ts_ns v)
        | inr r ↦ rw r (put_level-Inv b side price size ts_ns v)
      ])
    ]

quoted-Inv :
    (b : OrderBook) (bid_level ask_level : Level)
    → BookInv (record b { bids = bid_level ∷ []; asks = ask_level ∷ [] })
unfolding Sorted
quoted-Inv b bid_level ask_level = record {
  bids_ok = record { sorted = (tt, tt); bounded = omega arith };
  asks_ok = record { sorted = (tt, tt); bounded = omega arith };
}

apply_quote-Inv :
    (b : OrderBook) (bid_price ask_price bid_size ask_size : ℤ) (ts_ns : ℕ)
    → BookInv b
    → BookInv (apply_quote b bid_price ask_price bid_size ask_size ts_ns).1
unfolding apply_quote
apply_quote-Inv b bid_price ask_price bid_size ask_size ts_ns v =
    elim (Bool-cases (
      not (price_in_range b.limits bid_price)
      || not (price_in_range b.limits ask_price)
      || not (size_in_range b.limits bid_size)
      || not (size_in_range b.limits ask_size))) [
        | inl e ↦ rw e (reject-Inv b v)
        | inr e ↦
            rw e (elim (Bool-cases (ltb_ℤ b.limits.max_spread_ticks (ask_price -ℤ bid_price))) [
              | inl r ↦ rw r (reject-Inv b v)
              | inr r ↦ rw r (finish_update-Inv _ ts_ns (quoted-Inv b _ _))
            ])
      ]

-- One message to the book.
pub data Update : Type 0 where
  quotes : ℤ → ℤ → ℤ → ℤ → ℕ → Update
  deltas : Side → ℤ → ℤ → DeltaAction → ℕ → Update
  rebases_to : ℤ → Update

unfoldable pub update : OrderBook → Update → OrderBook
update b (quotes bid_price ask_price bid_size ask_size ts_ns) =
    (apply_quote b bid_price ask_price bid_size ask_size ts_ns).1
update b (deltas side price size action ts_ns) = (apply_delta b side price size action ts_ns).1
update b (rebases_to new_ref) = request_rebase b new_ref

unfoldable pub run_updates : OrderBook → List Update → OrderBook
run_updates b [] = b
run_updates b (u ∷ us) = run_updates (update b u) us

update-Inv : (b : OrderBook) (u : Update) → BookInv b → BookInv (update b u)
unfolding update
update-Inv b (quotes bid_price ask_price bid_size ask_size ts_ns) v =
    apply_quote-Inv b bid_price ask_price bid_size ask_size ts_ns v
update-Inv b (deltas side price size action ts_ns) v =
    apply_delta-Inv b side price size action ts_ns v
update-Inv b (rebases_to new_ref) v = request_rebase-Inv b new_ref

pub run_updates-Inv : (b : OrderBook) (us : List Update) → BookInv b → BookInv (run_updates b us)
unfolding run_updates
run_updates-Inv b [] v = v
run_updates-Inv b (u ∷ us) v = run_updates-Inv (update b u) us (update-Inv b u v)

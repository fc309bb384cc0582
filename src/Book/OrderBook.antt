-- ===== src/Book/OrderBook.antt =====
-- include/book/order_book.hpp: the order book of one symbol.
pub mod Ladder
pub mod Keep
pub mod Ordered
pub mod Sizes
pub mod Removals
pub mod Crossed
use market_microstructure_en.Base.{
  ℕ, zero, suc, ◌+◌, ◌-◌, Bool, true, false, ◌&&◌, ◌||◌, not, ◌==◌, ltb, leb, if◌then◌else◌, List,
  [], ◌∷◌, Option, none, some, get_or, set, take, length,
}
use market_microstructure_en.Base.Int.{ℤ, pos, ◌-ℤ◌, ltb_ℤ, leb_ℤ, ◌==ℤ◌}
use market_microstructure_en.Base.Words.{add32, add64, to_u64}
use market_microstructure_en.Exec.Types.{fnv_offset, fnv_mix}
use market_microstructure_en.Book.Types.{
  max_book_depth, Side, bid, ask, DeltaAction, add, modify, remove, BookStatus, ok,
  crossed_tolerated, crossed_halt, rebase_required, rejected, Level, no_level, SymbolLimits,
  price_in_range, size_in_range, CrossedTolerance,
}

-- `bids` is `bids_[0, bid_depth_)`, the levels that are live, and `asks` likewise; a depth is a length.
pub record OrderBook : Type 0 where
  pub bids : List Level
  pub asks : List Level
  pub symbol_id : ℕ
  pub limits : SymbolLimits
  pub tolerance : CrossedTolerance
  pub crossed_updates : ℕ
  pub crossed_since_ns : ℕ
  pub rebase_pending : Bool
  pub rebase_old_ref : ℤ
  pub rebase_new_ref : ℤ
  pub updates : ℕ
  pub rebases : ℕ
  pub rejections : ℕ
  pub outside_window : ℕ

unfoldable pub make_book : ℕ → SymbolLimits → CrossedTolerance → OrderBook
make_book symbol_id limits tolerance = record {
  bids = [];
  asks = [];
  symbol_id = symbol_id;
  limits = limits;
  tolerance = tolerance;
  crossed_updates = 0;
  crossed_since_ns = 0;
  rebase_pending = false;
  rebase_old_ref = pos 0;
  rebase_new_ref = pos 0;
  updates = 0;
  rebases = 0;
  rejections = 0;
  outside_window = 0;
}

unfoldable pub levels_of : Side → OrderBook → List Level
levels_of bid b = b.bids
levels_of ask b = b.asks

unfoldable pub with_levels : Side → OrderBook → List Level → OrderBook
with_levels bid b levels = record b { bids = levels }
with_levels ask b levels = record b { asks = levels }

unfoldable pub depth : OrderBook → Side → ℕ
depth b side = length (levels_of side b)

unfoldable pub level : OrderBook → Side → ℕ → Level
level b side index =
    if ltb index (depth b side) then get_or (levels_of side b) index no_level else no_level

unfoldable pub best : OrderBook → Side → Level
best b side = level b side 0

unfoldable pub has_both_sides : OrderBook → Bool
has_both_sides b = ltb 0 (length b.bids) && ltb 0 (length b.asks)

unfoldable pub is_crossed : OrderBook → Bool
is_crossed b =
    has_both_sides b
    && leb_ℤ (get_or b.asks 0 no_level).price_ticks (get_or b.bids 0 no_level).price_ticks

-- `find`: `none` stands for `npos`.
unfoldable pub find_level : List Level → ℤ → Option ℕ
find_level [] price = none
find_level (x ∷ xs) price =
    let rest = find_level xs price in
    if x.price_ticks ==ℤ price then some 0 else elim rest [ none ↦ none | some i ↦ some (suc i) ]

unfoldable pub erase_at : List Level → ℕ → List Level
erase_at [] index = []
erase_at (x ∷ xs) zero = xs
erase_at (x ∷ xs) (suc index) = x ∷ erase_at xs index

-- Whether the first price stands before the second on this side.
unfoldable pub better : Side → ℤ → ℤ → Bool
better bid p q = ltb_ℤ q p
better ask p q = ltb_ℤ p q

-- The loop of `insert_sorted` that looks for the position.
unfoldable pub position_of : Side → ℤ → List Level → ℕ
position_of side price [] = 0
position_of side price (x ∷ xs) =
    let rest = position_of side price xs in if better side price x.price_ticks then 0 else suc rest

-- The loop of `insert_sorted` that moves the levels behind the position.
unfoldable pub insert_at : ℕ → Level → List Level → List Level
insert_at zero entry xs = entry ∷ xs
insert_at (suc n) entry [] = entry ∷ []
insert_at (suc n) entry (x ∷ xs) = x ∷ insert_at n entry xs

unfoldable pub insert_sorted : Side → Level → List Level → Option (List Level)
insert_sorted side entry levels =
    let position = position_of side entry.price_ticks levels in
    if position == max_book_depth
    then none
    else if length levels == max_book_depth
    then if leb max_book_depth position
      then none
      else some (insert_at position entry (take (length levels - 1) levels))
    else some (insert_at position entry levels)

-- The counters of `evaluate_crossed` for a book that is crossed.
unfoldable pub count_crossed : OrderBook → ℕ → OrderBook
count_crossed b ts_ns = record b {
  crossed_since_ns = if b.crossed_updates == 0 then ts_ns else b.crossed_since_ns;
  crossed_updates = add32 b.crossed_updates 1;
}

unfoldable pub tolerance_spent : OrderBook → ℕ → Bool
tolerance_spent b ts_ns =
    ltb b.tolerance.max_consecutive_updates b.crossed_updates
    || leb b.crossed_since_ns ts_ns && ltb b.tolerance.max_duration_ns (ts_ns - b.crossed_since_ns)

unfoldable pub evaluate_crossed : OrderBook → ℕ → BookStatus × OrderBook
evaluate_crossed b ts_ns =
    if not (is_crossed b)
    then (ok, record b { crossed_updates = 0; crossed_since_ns = 0 })
    else let b' = count_crossed b ts_ns in
      (if tolerance_spent b' ts_ns then crossed_halt else crossed_tolerated, b')

unfoldable pub reject : OrderBook → BookStatus × OrderBook
reject b = (rejected, record b { rejections = add64 b.rejections 1 })

unfoldable pub clear : OrderBook → OrderBook
clear b = record b { bids = []; asks = []; crossed_updates = 0; crossed_since_ns = 0 }

unfoldable pub request_rebase : OrderBook → ℤ → OrderBook
request_rebase b new_ref =
    let cleared =
      clear (record b { rebase_old_ref = b.rebase_new_ref; rebase_new_ref = new_ref }) in
    record cleared { rebases = add64 cleared.rebases 1; rebase_pending = true }

-- `++updates_; return evaluate_crossed(ts_ns);`
unfoldable pub finish_update : OrderBook → ℕ → BookStatus × OrderBook
finish_update b ts_ns = evaluate_crossed (record b { updates = add64 b.updates 1 }) ts_ns

unfoldable pub apply_quote : OrderBook → ℤ → ℤ → ℤ → ℤ → ℕ → BookStatus × OrderBook
apply_quote b bid_price ask_price bid_size ask_size ts_ns =
    if not (price_in_range b.limits bid_price)
      || not (price_in_range b.limits ask_price)
      || not (size_in_range b.limits bid_size)
      || not (size_in_range b.limits ask_size)
    then reject b
    else if ltb_ℤ b.limits.max_spread_ticks (ask_price -ℤ bid_price)
    then reject b
    else finish_update
        (record b {
          bids = record { price_ticks = bid_price; level_size = bid_size } ∷ [];
          asks = record { price_ticks = ask_price; level_size = ask_size } ∷ [];
        })
        ts_ns

-- The case `remove` of `apply_delta`.
unfoldable pub remove_level : OrderBook → Side → ℤ → ℕ → BookStatus × OrderBook
remove_level b side price ts_ns = elim (find_level (levels_of side b) price) [
  | none ↦ (rebase_required, request_rebase b price)
  | some index ↦ finish_update (with_levels side b (erase_at (levels_of side b) index)) ts_ns
]

-- The levels of a side after the case `add` or `modify`; `none` where the price is outside the window.
unfoldable pub put : Side → ℤ → ℤ → List Level → Option (List Level)
put side price new_size levels = elim (find_level levels price) [
  | some index ↦
      some (set levels index (record (get_or levels index no_level) { level_size = new_size }))
  | none ↦ insert_sorted side (record { price_ticks = price; level_size = new_size }) levels
]

unfoldable pub put_level : OrderBook → Side → ℤ → ℤ → ℕ → BookStatus × OrderBook
put_level b side price new_size ts_ns = elim (put side price new_size (levels_of side b)) [
  | none ↦ finish_update (record b { outside_window = add64 b.outside_window 1 }) ts_ns
  | some levels ↦ finish_update (with_levels side b levels) ts_ns
]

abbrev pub is_remove : DeltaAction → Bool
is_remove remove = true
is_remove _ = false

unfoldable pub apply_delta : OrderBook → Side → ℤ → ℤ → DeltaAction → ℕ → BookStatus × OrderBook
apply_delta b side price new_size action ts_ns =
    if not (price_in_range b.limits price) || not (size_in_range b.limits new_size)
    then reject b
    else if new_size ==ℤ pos 0 || is_remove action
    then remove_level b side price ts_ns
    else put_level b side price new_size ts_ns

pub record BookRebasePayload : Type 0 where
  pub symbol_id : ℕ
  pub old_ref : ℤ
  pub new_ref : ℤ

-- `consume_rebase`: `none` where it returns false.
unfoldable pub consume_rebase : OrderBook → Option BookRebasePayload × OrderBook
consume_rebase b = if not b.rebase_pending then (none, b) else (
  some (record { symbol_id = b.symbol_id; old_ref = b.rebase_old_ref; new_ref = b.rebase_new_ref }),
  record b { rebase_pending = false },
)

unfoldable pub mix_levels : ℕ → List Level → ℕ
mix_levels hash [] = hash
mix_levels hash (x ∷ xs) =
    mix_levels (fnv_mix (fnv_mix hash (to_u64 x.price_ticks)) (to_u64 x.level_size)) xs

unfoldable pub checksum : OrderBook → ℕ
checksum b =
    let hash = fnv_mix (fnv_mix (fnv_mix fnv_offset b.symbol_id) (length b.bids)) (length b.asks) in
    mix_levels (mix_levels hash b.bids) b.asks

-- ===== src/Book/OrderBook/Removals.antt =====
-- What a removal does to a book that shows the price, and to one that does not.
use mathlib.Core.Option.{none-ne-some}
use mathlib.Core.Bool.{true≢false}
use market_microstructure_en.Base.{
  ℕ, zero, suc, ◌-◌, ◌≡◌, ◌↔◌, refl, sym, ap, ◌∙◌, arith, ◌||◌, Bool, true, false, not,
  if◌then◌else◌, List, [], ◌∷◌, Bool-cases, inl, inr, Option, none, some, is_some, length, ◌≢◌,
}
use market_microstructure_en.Base.Int.{ℤ, pos, ◌==ℤ◌}
use market_microstructure_en.Base.Words.{add64}
use market_microstructure_en.Book.Types.{
  BookStatus, Side, bid, ask, Level, DeltaAction, price_in_range, size_in_range, rebase_required,
}
use market_microstructure_en.Book.OrderBook.{
  find_level, erase_at, OrderBook, levels_of, depth, with_levels, finish_update, evaluate_crossed,
  count_crossed, is_crossed, request_rebase, clear, remove_level, is_remove, apply_delta,
  consume_rebase, tolerance_spent, BookRebasePayload,
}
use market_microstructure_en.Book.OrderBook.Ladder.{find_level_cons, find_level_cases}
use market_microstructure_en.Book.OrderBook.Keep.{BookInv, side_ok}
use market_microstructure_en.Book.OrderBook.Sizes.{
  size_at, find_level_zero, find_level-suc, size_at-erase_at, other, finish_levels,
  with_levels_same, with_levels-other,
}

-- A price that `find` misses is not shown, one that it finds is.
size_at-missing : (p : ℤ) (xs : List Level) → find_level xs p ≡ none → size_at p xs ≡ none
unfolding size_at
size_at-missing p [] h = refl
size_at-missing p (x ∷ xs) h =
    let (ne, rest) = find_level_cons x xs p h in rw ne (size_at-missing p xs rest)

size_at-found :
    (p : ℤ) (xs : List Level) (i : ℕ) → find_level xs p ≡ some i → is_some (size_at p xs) ≡ true
unfolding size_at find_level
size_at-found p [] i h = absurd (ground arith)
size_at-found p (x ∷ xs) zero h = rw (find_level_zero x xs p h) refl
size_at-found p (x ∷ xs) (suc i) h =
    let (ne, rest) = find_level-suc x xs p i h in rw ne (size_at-found p xs i rest)

apply_delta-remove :
    (b : OrderBook) (side : Side) (price size : ℤ) (action : DeltaAction) (ts_ns : ℕ)
    → price_in_range b.limits price ≡ true
    → size_in_range b.limits size ≡ true
    → (size ==ℤ pos 0 || is_remove action) ≡ true
    → apply_delta b side price size action ts_ns ≡ remove_level b side price ts_ns
unfolding apply_delta
apply_delta-remove b side price size action ts_ns p s r = rw (p, s, r)

remove_missing :
    (b : OrderBook) (side : Side) (price : ℤ) (ts_ns : ℕ)
    → find_level (levels_of side b) price ≡ none
    → remove_level b side price ts_ns ≡ (rebase_required, request_rebase b price)
unfolding remove_level
remove_missing b side price ts_ns h = rw (h, remove_level) refl

remove_found :
    (b : OrderBook) (side : Side) (price : ℤ) (ts_ns i : ℕ)
    → find_level (levels_of side b) price ≡ some i
    → remove_level b side price ts_ns
      ≡ finish_update (with_levels side b (erase_at (levels_of side b) i)) ts_ns
unfolding remove_level
remove_found b side price ts_ns i h = rw (h, remove_level) refl

-- A removal, or an update to size 0, with price and size in range of the limits, of a price that the side
-- shows: the side no longer shows it, what it shows at other prices and the other side are as before.
pub apply_delta_removes :
    (b : OrderBook) (side : Side) (price size shown : ℤ) (action : DeltaAction) (ts_ns : ℕ)
    → BookInv b
    → price_in_range b.limits price ≡ true
    → size_in_range b.limits size ≡ true
    → (size ==ℤ pos 0 || is_remove action) ≡ true
    → size_at price (levels_of side b) ≡ some shown
    → ((q : ℤ)
        → size_at q (levels_of side (apply_delta b side price size action ts_ns).1)
          ≡ (if price ==ℤ q then none else size_at q (levels_of side b)))
      × (levels_of (other side) (apply_delta b side price size action ts_ns).1
          ≡ levels_of (other side) b)
apply_delta_removes b side price size shown action ts_ns v p s r held =
    elim (find_level_cases (levels_of side b) price) [
      | inl missing ↦
          let gone = size_at-missing price _ missing in
          absurd (none-ne-some shown (sym gone ∙ held))
      | inr (i, found, _, _) ↦
          rw
            (
              apply_delta-remove b side price size action ts_ns p s r,
              remove_found b side price ts_ns i found,
            )
            (
              λ q.
                  ap (size_at q) (finish_levels _ ts_ns side ∙ with_levels_same side b _)
                  ∙ size_at-erase_at side price q (levels_of side b) i (side_ok side b v).sorted
                      found,
              finish_levels _ ts_ns (other side) ∙ with_levels-other side b _,
            )
    ]

length-erase_at :
    (p : ℤ) (xs : List Level) (i : ℕ)
    → find_level xs p ≡ some i
    → length (erase_at xs i) ≡ length xs - 1
unfolding find_level erase_at
length-erase_at p [] i h = absurd (ground arith)
length-erase_at p (x ∷ xs) zero h = omega arith
length-erase_at p (x ∷ []) (suc i) h = absurd (ground arith)
length-erase_at p (x ∷ y ∷ xs) (suc i) h =
    let (_, rest) = find_level-suc x (y ∷ xs) p i h in
    omega (arith, length-erase_at p (y ∷ xs) i rest)

-- The rebase that `consume_rebase` gives, and that it is then consumed.
abbrev pending : OrderBook → Option BookRebasePayload
pending b =
    if not b.rebase_pending
    then none
    else some
        (record { symbol_id = b.symbol_id; old_ref = b.rebase_old_ref; new_ref = b.rebase_new_ref })

consume_lem :
    (b : OrderBook)
    → ((consume_rebase b).0 ≡ pending b) × ((consume_rebase (consume_rebase b).1).0 ≡ none)
unfolding consume_rebase
consume_lem b = elim (Bool-cases b.rebase_pending) [
  | inl e ↦ rw e (refl, refl)
  | inr e ↦ rw e (refl, refl)
]

-- An update that finishes asks for no rebase and leaves a pending one.
finish_rebase :
    (b : OrderBook) (ts_ns : ℕ)
    → ((finish_update b ts_ns).0 ≢ rebase_required)
      × (pending (finish_update b ts_ns).1 ≡ pending b)
unfolding finish_update evaluate_crossed count_crossed
finish_rebase b ts_ns =
    let counted = record b { updates = add64 b.updates 1 } in
    elim (Bool-cases (is_crossed counted)) [
      | inr e ↦ rw e (λ h. cc, refl)
      | inl e ↦ elim (Bool-cases (tolerance_spent (count_crossed counted ts_ns) ts_ns)) [
        | inl f ↦ rw (e, f) (λ h. cc, refl)
        | inr f ↦ rw (e, f) (λ h. cc, refl)
      ]
    ]

with_levels-rebase :
    (side : Side) (b : OrderBook) (xs : List Level) → pending (with_levels side b xs) ≡ pending b
unfolding with_levels
with_levels-rebase bid b xs = refl
with_levels-rebase ask b xs = refl

-- What a removal of a price leaves, whether or not its side shows the price.
pub record Removed (b : OrderBook) (side : Side) (price : ℤ) (shown : Bool)
    (r : BookStatus × OrderBook) : Type 0 where
  pub asks_rebase : (r.0 ≡ rebase_required) ↔ (shown ≡ false)
  pub side_depth : depth r.1 side ≡ (if shown then depth b side - 1 else 0)
  pub other_depth : depth r.1 (other side) ≡ (if shown then depth b (other side) else 0)
  pub first_rebase : (consume_rebase r.1).0 ≡ (
      if shown
      then (consume_rebase b).0
      else some (record { symbol_id = b.symbol_id; old_ref = b.rebase_new_ref; new_ref = price }))
  pub second_rebase : (consume_rebase (consume_rebase r.1).1).0 ≡ none

missing-Removed :
    (b : OrderBook) (side : Side) (price : ℤ)
    → Removed b side price false (rebase_required, request_rebase b price)
unfolding request_rebase clear depth levels_of consume_rebase
missing-Removed b bid price = record {
  asks_rebase = (λ _. refl, λ _. refl);
  side_depth = refl;
  other_depth = refl;
  first_rebase = refl;
  second_rebase = refl;
}
missing-Removed b ask price = record {
  asks_rebase = (λ _. refl, λ _. refl);
  side_depth = refl;
  other_depth = refl;
  first_rebase = refl;
  second_rebase = refl;
}

found-Removed :
    (b : OrderBook) (side : Side) (price : ℤ) (ts_ns i : ℕ)
    → find_level (levels_of side b) price ≡ some i
    → Removed b side price true
        (finish_update (with_levels side b (erase_at (levels_of side b) i)) ts_ns)
unfolding depth
found-Removed b side price ts_ns i found =
    let left = with_levels side b (erase_at (levels_of side b) i) in
    let (calm, kept) = finish_rebase left ts_ns in
    let (first, second) = consume_lem (finish_update left ts_ns).1 in
    record {
      asks_rebase = (λ e. absurd (calm e), λ e. absurd (true≢false e));
      side_depth =
          ap length (finish_levels left ts_ns side ∙ with_levels_same side b _)
          ∙ length-erase_at price _ i found;
      other_depth = ap length (finish_levels left ts_ns (other side) ∙ with_levels-other side b _);
      first_rebase = first ∙ kept ∙ with_levels-rebase side b _ ∙ sym (consume_lem b).0;
      second_rebase = second;
    }

-- A removal, or an update to size 0, with price and size in range of the limits: it asks for a rebase if
-- and only if the side does not show the price. Where it does, that side has one level less, the other side
-- as many as before, and a rebase that was pending is the one to consume; where it does not, both sides
-- are empty and the rebase to consume names the price. It can be consumed once.
pub apply_delta_diverged :
    (b : OrderBook) (side : Side) (price size : ℤ) (action : DeltaAction) (ts_ns : ℕ)
    → price_in_range b.limits price ≡ true
    → size_in_range b.limits size ≡ true
    → (size ==ℤ pos 0 || is_remove action) ≡ true
    → Removed b side price
        (is_some (size_at price (levels_of side b)))
        (apply_delta b side price size action ts_ns)
apply_delta_diverged b side price size action ts_ns p s r =
    elim (find_level_cases (levels_of side b) price) [
      | inl missing ↦
          rw
            (
              apply_delta-remove b side price size action ts_ns p s r,
              remove_missing b side price ts_ns missing,
              size_at-missing price _ missing,
            )
            (missing-Removed b side price)
      | inr (i, found, _, _) ↦
          rw
            (
              apply_delta-remove b side price size action ts_ns p s r,
              remove_found b side price ts_ns i found,
              size_at-found price _ i found,
            )
            (found-Removed b side price ts_ns i found)
    ]

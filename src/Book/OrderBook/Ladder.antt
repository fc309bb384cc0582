-- ===== src/Book/OrderBook/Ladder.antt =====
-- The levels of one side: strictly ordered by price, and at most `max_book_depth` of them.
use market_microstructure_en.Base.{
  ℕ, zero, suc, ◌-◌, ◌≤◌, ◌<◌, ◌≡◌, refl, sym, ap, arith, leb, ◌==◌, true, false, List, [], ◌∷◌,
  All, All-take, Bool-cases, inl, inr, ◌⊎◌, none, some, get_or, set, take, length,
}
use market_microstructure_en.Base.Int.{ℤ, ◌==ℤ◌}
use market_microstructure_en.Book.Types.{Side, bid, ask, Level, no_level, max_book_depth}
use market_microstructure_en.Book.OrderBook.{
  find_level, better, position_of, insert_at, insert_sorted, put,
}

abbrev pub Before : Side → ℤ → Level → Type 0
Before side p x = better side p x.price_ticks ≡ true

-- Every level stands before the ones that follow it: bids fall, asks rise, no price stands twice.
unfoldable pub Sorted : Side → List Level → Type 0
Sorted side [] = Unit
Sorted side (x ∷ xs) = All (Before side x.price_ticks) xs × Sorted side xs

pub record LadderInv (side : Side) (levels : List Level) : Type 0 where
  pub sorted : Sorted side levels
  pub bounded : length levels ≤ max_book_depth

pub better_trans :
    (side : Side) (p q r : ℤ)
    → better side p q ≡ true
    → better side q r ≡ true
    → better side p r ≡ true
unfolding better
better_trans bid p q r h k = ground arith
better_trans ask p q r h k = ground arith

-- Two prices are equal, or one is better.
pub better_total :
    (side : Side) (p q : ℤ) → better side p q ≡ false → (q ==ℤ p) ≡ false → better side q p ≡ true
unfolding better
better_total bid p q h k = ground arith
better_total ask p q h k = ground arith

All-Before :
    (side : Side) (p q : ℤ) (xs : List Level)
    → better side p q ≡ true
    → All (Before side q) xs
    → All (Before side p) xs
All-Before side p q [] h a = tt
All-Before side p q (x ∷ xs) h a =
    (better_trans side p q x.price_ticks h a.0, All-Before side p q xs h a.1)

pub Sorted-take : (side : Side) (n : ℕ) (xs : List Level) → Sorted side xs → Sorted side (take n xs)
unfolding Sorted
Sorted-take side zero xs s = tt
Sorted-take side (suc n) [] s = tt
Sorted-take side (suc n) (x ∷ xs) s =
    (All-take (Before side x.price_ticks) n xs s.0, Sorted-take side n xs s.1)

pub All-insert_at {κ} :
    (P : Level → Type κ) (n : ℕ) (e : Level) (xs : List Level)
    → P e
    → All P xs
    → All P (insert_at n e xs)
unfolding insert_at
All-insert_at P zero e xs h a = (h, a)
All-insert_at P (suc n) e [] h a = (h, tt)
All-insert_at P (suc n) e (x ∷ xs) h a = (a.0, All-insert_at P n e xs h a.1)

pub find_level_cons :
    (x : Level) (xs : List Level) (p : ℤ)
    → find_level (x ∷ xs) p ≡ none
    → ((x.price_ticks ==ℤ p) ≡ false) × (find_level xs p ≡ none)
unfolding find_level
find_level_cons x xs p h = elim (Bool-cases (x.price_ticks ==ℤ p)) [
  | inl e ↦ absurd (ground arith)
  | inr e ↦ (e, ground arith)
]

-- A level of a new price goes in at its position.
pub insert_at-Sorted :
    (side : Side) (e : Level) (xs : List Level)
    → find_level xs e.price_ticks ≡ none
    → Sorted side xs
    → Sorted side (insert_at (position_of side e.price_ticks xs) e xs)
unfolding Sorted insert_at position_of
insert_at-Sorted side e [] h s = (tt, tt)
insert_at-Sorted side e (x ∷ xs) h s =
    let (ne, rest) = find_level_cons x xs e.price_ticks h in
    elim (Bool-cases (better side e.price_ticks x.price_ticks)) [
      | inl b ↦ rw b ((b, All-Before side e.price_ticks x.price_ticks xs b s.0), s)
      | inr b ↦ rw b (
        All-insert_at (Before side x.price_ticks) (position_of side e.price_ticks xs) e xs
            (better_total side e.price_ticks x.price_ticks b ne) s.0,
        insert_at-Sorted side e xs rest s.1,
      )
    ]

insert_at-take :
    (n m : ℕ) (e : Level) (xs : List Level)
    → n ≤ m
    → insert_at n e (take m xs) ≡ take (suc m) (insert_at n e xs)
unfolding insert_at
insert_at-take zero m e xs h = refl
insert_at-take (suc n) zero e xs h = absurd (omega arith)
insert_at-take (suc n) (suc m) e [] h = refl
insert_at-take (suc n) (suc m) e (x ∷ xs) h =
    ap (λ ys. x ∷ ys) (insert_at-take n m e xs (omega arith))

pub length-insert_at :
    (n : ℕ) (e : Level) (xs : List Level) → length (insert_at n e xs) ≡ suc (length xs)
unfolding insert_at
length-insert_at zero e xs = refl
length-insert_at (suc n) e [] = refl
length-insert_at (suc n) e (x ∷ xs) = ap suc (length-insert_at n e xs)

pub position-le : (side : Side) (p : ℤ) (xs : List Level) → position_of side p xs ≤ length xs
unfolding position_of
position-le side p [] = omega arith
position-le side p (x ∷ xs) = ground (arith, position-le side p xs)

pub take-all : (n : ℕ) (xs : List Level) → length xs ≤ n → take n xs ≡ xs
take-all zero [] h = refl
take-all zero (x ∷ xs) h = absurd (omega arith)
take-all (suc n) [] h = refl
take-all (suc n) (x ∷ xs) h = ap (λ ys. x ∷ ys) (take-all n xs (omega arith))

-- What `insert_sorted` does: the price is outside the window, or the new level goes in at its position
-- and the window keeps its best levels.
pub insert_sorted_cases :
    (side : Side) (e : Level) (xs : List Level)
    → length xs ≤ max_book_depth
    → ((insert_sorted side e xs ≡ none) × (length xs ≡ max_book_depth))
      ⊎ (insert_sorted side e xs
          ≡ some (take max_book_depth (insert_at (position_of side e.price_ticks xs) e xs)))
unfolding insert_sorted
insert_sorted_cases side e xs h =
    let n : ℕ = position_of side e.price_ticks xs in
    let le = position-le side e.price_ticks xs in
    elim (Bool-cases (n == max_book_depth)) [
      | inl full ↦ inl (rw full, ground arith)
      | inr inside ↦ elim (Bool-cases (length xs == max_book_depth)) [
        | inl full ↦
            let long : length xs - 1 ≡ 31 = ground arith in
            let below : leb max_book_depth n ≡ false = ground arith in
            inr (rw (inside, full, below, long) (ap some (insert_at-take n 31 e xs (ground arith))))
        | inr room ↦
            let few : length xs < 32 = ground arith in
            inr (
              rw (inside, room)
                (ap some
                  (sym (take-all 32 (insert_at n e xs) (omega (arith, length-insert_at n e xs))))))
      ]
    ]

pub find_level_cases :
    (xs : List Level) (p : ℤ)
    → (find_level xs p ≡ none)
      ⊎ ((i : ℕ) × (find_level xs p ≡ some i)
          × (i < length xs)
          × ((get_or xs i no_level).price_ticks ≡ p))
unfolding find_level
find_level_cases [] p = inl refl
find_level_cases (x ∷ xs) p = elim (Bool-cases (x.price_ticks ==ℤ p)) [
  | inl e ↦ inr (0, rw e, omega arith, ground arith)
  | inr e ↦ elim (find_level_cases xs p) [
    | inl q ↦ inl (rw (e, q))
    | inr (i, q, h, k) ↦ inr (suc i, rw (e, q), omega arith, k)
  ]
]

abbrev pub resized : Level → ℤ → Level
resized x size = record x { level_size = size }

abbrev pub new_level : ℤ → ℤ → Level
new_level price size = record { price_ticks = price; level_size = size }

-- The three things that `put` does.
pub put_cases :
    (side : Side) (price size : ℤ) (xs : List Level)
    → length xs ≤ max_book_depth
    → ((i : ℕ) × (find_level xs price ≡ some i)
        × (i < length xs)
        × (put side price size xs ≡ some (set xs i (resized (get_or xs i no_level) size))))
      ⊎ (((find_level xs price ≡ none)
            × (length xs ≡ max_book_depth)
            × (put side price size xs ≡ none))
          ⊎ ((find_level xs price ≡ none)
              × (put side price size xs
                  ≡ some (
                      take max_book_depth
                        (insert_at (position_of side price xs) (new_level price size) xs)))))
unfolding put
put_cases side price size xs h = elim (find_level_cases xs price) [
  | inr (i, q, lt, _) ↦ inl (i, q, lt, rw (q, put))
  | inl q ↦ elim (insert_sorted_cases side (new_level price size) xs h) [
    | inl (full, long) ↦ inr (inl (q, long, rw (q, put) full))
    | inr way ↦ inr (inr (q, rw (q, put) way))
  ]
]

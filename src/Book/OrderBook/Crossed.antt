-- ===== src/Book/OrderBook/Crossed.antt =====
-- How long a crossed book is tolerated.
use market_microstructure_en.Base.{
  ℕ, zero, suc, ◌+◌, ◌<◌, ◌≡◌, refl, ap, ◌∙◌, arith, ltb, ◌==◌, true, false, if◌then◌else◌,
  Bool-cases, inl, inr,
}
use market_microstructure_en.Base.Words.{u32_mod}
use market_microstructure_en.Book.Types.{
  BookStatus, ok, crossed_tolerated, crossed_halt, CrossedTolerance,
}
use market_microstructure_en.Book.OrderBook.{
  OrderBook, is_crossed, has_both_sides, evaluate_crossed, count_crossed, tolerance_spent,
}

-- The book after `n` evaluations at one time.
unfoldable pub evaluations : ℕ → OrderBook → ℕ → OrderBook
evaluations zero b ts_ns = b
evaluations (suc n) b ts_ns = (evaluate_crossed (evaluations n b ts_ns) ts_ns).1

evaluate-crossed :
    (b : OrderBook) (ts_ns : ℕ)
    → is_crossed b ≡ true
    → evaluate_crossed b ts_ns ≡ (
      if tolerance_spent (count_crossed b ts_ns) ts_ns then crossed_halt else crossed_tolerated,
      count_crossed b ts_ns,
    )
unfolding evaluate_crossed
evaluate-crossed b ts_ns h = rw h

count_crossed-is_crossed :
    (b : OrderBook) (ts_ns : ℕ) → is_crossed (count_crossed b ts_ns) ≡ is_crossed b
unfolding is_crossed has_both_sides count_crossed
count_crossed-is_crossed b ts_ns = refl

next_evaluation :
    (n : ℕ) (b : OrderBook) (ts_ns : ℕ)
    → is_crossed (evaluations n b ts_ns) ≡ true
    → evaluations (suc n) b ts_ns ≡ count_crossed (evaluations n b ts_ns) ts_ns
unfolding evaluations
next_evaluation n b ts_ns c =
    ap (λ (r : BookStatus × OrderBook). r.1) (evaluate-crossed (evaluations n b ts_ns) ts_ns c)

-- The counter after `n` evaluations of a crossed book, and the time they count from.
evaluations_lem :
    (n : ℕ) (b : OrderBook) (ts_ns : ℕ)
    → is_crossed b ≡ true
    → b.crossed_updates ≡ 0
    → n < u32_mod
    → (is_crossed (evaluations n b ts_ns) ≡ true)
      × ((evaluations n b ts_ns).crossed_updates ≡ n)
      × (0 < n → (evaluations n b ts_ns).crossed_since_ns ≡ ts_ns)
      × ((evaluations n b ts_ns).tolerance ≡ b.tolerance)
unfolding evaluations count_crossed
evaluations_lem zero b ts_ns h z w = (h, z, λ k. absurd (omega arith), refl)
evaluations_lem (suc n) b ts_ns h z w =
    let (c, m, since, t) = evaluations_lem n b ts_ns h z (omega arith) in
    rw (next_evaluation n b ts_ns c) (
      count_crossed-is_crossed (evaluations n b ts_ns) ts_ns ∙ c,
      omega (arith, m),
      λ k. elim (Bool-cases ((evaluations n b ts_ns).crossed_updates == 0)) [
        | inl e ↦ rw e
        | inr e ↦ rw e (since (ground arith))
      ],
      t,
    )

spent :
    {n : ℕ} {tolerance : CrossedTolerance} (b : OrderBook) (ts_ns : ℕ)
    → b.crossed_since_ns ≡ ts_ns
    → b.crossed_updates ≡ suc n
    → b.tolerance ≡ tolerance
    → (if tolerance_spent b ts_ns then crossed_halt else crossed_tolerated)
      ≡ (if ltb tolerance.max_consecutive_updates (n + 1) then crossed_halt else crossed_tolerated)
unfolding tolerance_spent
spent b ts_ns since m t = rw (since, m, t) (ground arith)

-- A book that becomes crossed and stays so, evaluated repeatedly at one time, is tolerated for as many
-- evaluations as the tolerance says,
-- and every later one, up to fewer than 2^32 evaluations, is a halt.
pub crossed_limit :
    (n : ℕ) (b : OrderBook) (ts_ns : ℕ)
    → is_crossed b ≡ true
    → b.crossed_updates ≡ 0
    → n + 1 < u32_mod
    → (evaluate_crossed (evaluations n b ts_ns) ts_ns).0 ≡ (
        if ltb b.tolerance.max_consecutive_updates (n + 1) then crossed_halt else crossed_tolerated)
unfolding tolerance_spent
crossed_limit n b ts_ns h z w =
    let (c, _, _, _) = evaluations_lem n b ts_ns h z (omega arith) in
    let (_, m, since, t) = evaluations_lem (suc n) b ts_ns h z (omega arith) in
    rw (evaluate-crossed (evaluations n b ts_ns) ts_ns c) (
      rw (← next_evaluation n b ts_ns c)
        (spent (evaluations (suc n) b ts_ns) ts_ns (since (omega arith)) m t))

-- A book that is not crossed is in order at once, and the count of crossed updates starts again.
pub uncrossed_resets :
    (b : OrderBook) (ts_ns : ℕ)
    → is_crossed b ≡ false
    → ((evaluate_crossed b ts_ns).0 ≡ ok)
      × ((evaluate_crossed b ts_ns).1.crossed_updates ≡ 0)
      × ((evaluate_crossed b ts_ns).1.bids ≡ b.bids)
      × ((evaluate_crossed b ts_ns).1.asks ≡ b.asks)
unfolding evaluate_crossed
uncrossed_resets b ts_ns h = rw h (refl, refl, refl, refl)

-- ===== src/Base/Doubles.antt =====
-- `double` on whole numbers: the rounding of a number to the nearest one with 53 significant bits.
use market_microstructure_en.Base.{
  ℕ, zero, suc, ◌+◌, ◌*◌, ◌/◌, ◌%◌, ◌^◌, ◌<◌, ◌≡◌, refl, arith, ◌&&◌, ◌||◌, ◌==◌, ltb,
  if◌then◌else◌, ◌-◌, true,
}

-- The distance of neighbouring doubles at `n`, on enough fuel for the bits above the 53.
unfoldable pub spacing : ℕ → ℕ → ℕ
spacing zero n = 1
spacing (suc fuel) n = let rest = spacing fuel (n / 2) in if ltb n (2 ^ 53) then 1 else 2 * rest

-- To the nearest multiple of the distance, and to an even multiple from the middle of two.
abbrev pub round_to : ℕ → ℕ → ℕ
round_to u n =
    if ltb u (2 * (n % u)) || (2 * (n % u) == u && (n / u % 2 == 1))
    then (n / u + 1) * u
    else n / u * u

-- `static_cast<double>(n)`, and the rounding of a product, for numbers below 2^117.
unfoldable pub round_double : ℕ → ℕ
unfolding spacing
round_double n = round_to (spacing 64 n) n

round_to-one : (n : ℕ) → round_to 1 n ≡ n
round_to-one n =
    let whole : n / 1 ≡ n = omega arith in
    let rest : n % 1 ≡ 0 = omega arith in rw (whole, rest) (omega arith)

spacing-small : (fuel n : ℕ) → n < 2 ^ 53 → spacing fuel n ≡ 1
unfolding spacing
spacing-small zero n h = refl
spacing-small (suc fuel) n h = let small : ltb n (2 ^ 53) ≡ true = ground arith in rw small refl

pub round_double_small : (n : ℕ) → n < 2 ^ 53 → round_double n ≡ n
unfolding round_double
round_double_small n h = rw (spacing-small 64 n h) (round_to-one n)

rounds_to_even : round_double (2 ^ 53 + 1) ≡ 2 ^ 53
unfolding round_double spacing
rounds_to_even = refl

rounds_up : round_double (2 ^ 53 + 3) ≡ 2 ^ 53 + 4
unfolding round_double spacing
rounds_up = refl

rounds_largest : round_double (2 ^ 63 - 1) ≡ 2 ^ 63
unfolding round_double spacing
rounds_largest = refl

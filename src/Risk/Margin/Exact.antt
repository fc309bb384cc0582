-- ===== src/Risk/Margin/Exact.antt =====
-- The margin projection is exact, and its guard refuses just the products that do not fit 64 bits.
use native.Mathlib.Nat.{le-div_iff_mul-le}
use market_microstructure_en.Base.{
  ℕ, zero, suc, ◌+◌, ◌-◌, ◌*◌, ◌/◌, ◌^◌, ◌≤◌, ◌≡◌, refl, ap, arith, ltb, leb, not, ◌&&◌, ◌||◌, true,
  false, if◌then◌else◌, Bool-cases, inl, inr,
}
use market_microstructure_en.Base.Int.{pos, negsuc, ◌+ℤ◌, ◌-ℤ◌, ◌*ℤ◌, ltb_ℤ, ◌==ℤ◌, quot, int64_max}
use market_microstructure_en.Risk.Margin.{projected_free_margin}

mul_pos : (a b : ℕ) → pos a *ℤ pos b ≡ pos (a * b)
unfolding ◌*ℤ◌
mul_pos a b = ground arith

-- A notional amount in basis points, rounded up.
unfoldable pub shock_of : ℕ → ℕ → ℕ
shock_of notional shock_bp = (notional * shock_bp + 9999) / 10000

guard_room :
    (n s : ℕ)
    → (not (pos s ==ℤ pos 0) && ltb_ℤ (quot (int64_max -ℤ pos 9999) (pos s)) (pos n))
      ≡ ltb (2 ^ 63 - 1) (n * s + 9999)
unfolding quot ◌-ℤ◌
guard_room n zero = ground arith
guard_room n (suc s) =
    let (there, back) = le-div_iff_mul-le {k = suc s} {x = n} {y = 2 ^ 63 - 10000} (omega arith) in
    elim (Bool-cases (leb n ((2 ^ 63 - 10000) / suc s))) [
      | inl e ↦ let fits : n * suc s ≤ 2 ^ 63 - 10000 = there (ground arith) in ground arith
      | inr e ↦ elim (Bool-cases (leb (n * suc s) (2 ^ 63 - 10000))) [
        | inl q ↦ let small : n ≤ (2 ^ 63 - 10000) / suc s = back (ground arith) in ground arith
        | inr q ↦ ground arith
      ]
    ]

add_pos : (a b : ℕ) → pos a +ℤ pos b ≡ pos (a + b)
unfolding ◌+ℤ◌
add_pos a b = ground arith

sub_pos : (a b : ℕ) → b ≤ a → pos a -ℤ pos b ≡ pos (a - b)
unfolding ◌-ℤ◌
sub_pos a b h = ground arith

shock_quot : (n s : ℕ) → quot (pos n *ℤ pos s +ℤ pos 9999) (pos 10000) ≡ pos (shock_of n s)
unfolding quot shock_of
shock_quot n s = rw (mul_pos n s, add_pos (n * s) 9999)

-- The last test of the projection and its result.
rest_lem :
    (f m k : ℕ)
    → (if ltb_ℤ (pos f) (pos m) || ltb_ℤ (pos f -ℤ pos m) (pos k)
        then negsuc 0
        else pos f -ℤ pos m -ℤ pos k)
      ≡ (if leb (m + k) f then pos (f - (m + k)) else negsuc 0)
rest_lem f m k = elim (Bool-cases (ltb f m)) [
  | inl e ↦
      let over : leb (m + k) f ≡ false = ground arith in
      let less : ltb_ℤ (pos f) (pos m) ≡ true = ground arith in rw (less, over) refl
  | inr e ↦
      let le : m ≤ f = ground arith in
      let no_less : ltb_ℤ (pos f) (pos m) ≡ false = ground arith in
      rw (no_less, sub_pos f m le)
        (elim (Bool-cases (ltb (f - m) k)) [
          | inl q ↦
              let over : leb (m + k) f ≡ false = ground arith in
              let short : ltb_ℤ (pos (f - m)) (pos k) ≡ true = ground arith in rw (short, over) refl
          | inr q ↦
              let enough : leb (m + k) f ≡ true = ground arith in
              let long : ltb_ℤ (pos (f - m)) (pos k) ≡ false = ground arith in
              rw (long, enough, sub_pos (f - m) k (ground arith)) (ap pos (omega arith))
        ])
]

-- For amounts that are not negative: what remains of the free margin after the order's margin and the
-- shock, if the shock can be computed in 64 bits and leaves something, and -1 otherwise.
pub projected_free_margin_exact :
    (f m n s : ℕ)
    → projected_free_margin (pos f) (pos m) (pos n) (pos s) ≡ (
        if leb (n * s + 9999) (2 ^ 63 - 1) && leb (m + shock_of n s) f
        then pos (f - (m + shock_of n s))
        else negsuc 0)
unfolding projected_free_margin
projected_free_margin_exact f m n s =
    let signs : (ltb_ℤ (pos f) (pos 0)
          || ltb_ℤ (pos m) (pos 0)
          || ltb_ℤ (pos n) (pos 0)
          || ltb_ℤ (pos s) (pos 0))
        ≡ false =
      ground arith in
    rw (signs, guard_room n s, shock_quot n s, rest_lem f m (shock_of n s)) (ground arith)

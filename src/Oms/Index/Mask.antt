-- ===== src/Oms/Index/Mask.antt =====
-- The mask `x & (n - 1)` is `x % n` for a power of two `n`, and `next_pow2` gives such a number.
use Prim.Native.Nat.{bit_and, digits, bit_and-bitwise}
use market_microstructure_en.Base.{
  ℕ, zero, suc, ◌+◌, ◌-◌, ◌*◌, ◌/◌, ◌%◌, ◌^◌, ◌≤◌, ◌<◌, min, ◌≡◌, ◌∙◌, sym, refl, arith, ltb,
  Bool-cases, inl, inr,
}
use market_microstructure_en.Oms.Index.{mask, next_pow2_loop, next_pow2}

-- A power of two, as the number of doublings of 1.
abbrev pub pow2 : ℕ → ℕ
pow2 zero = 1
pow2 (suc k) = pow2 k * 2

pub pow2_pos : (k : ℕ) → 0 < pow2 k
pow2_pos zero = omega arith
pow2_pos (suc k) = omega (arith, pow2_pos k)

mod_double : (a m : ℕ) → 0 < m → a % (m * 2) ≡ a / 2 % m * 2 + a % 2
mod_double a m h = grind arith

zero-mod_pow2 : (k : ℕ) → 0 % pow2 k ≡ 0
zero-mod_pow2 zero = refl
zero-mod_pow2 (suc k) = omega (arith, mod_double 0 (pow2 k) (pow2_pos k), zero-mod_pow2 k)

-- A mask of k ones over k + 1 ones: the lowest digit is 1, the rest is the shorter mask.
mask_odd : (k : ℕ) → (pow2 (suc k) - 1) % 2 ≡ 1
mask_odd k = omega (arith, pow2_pos k)

mask_half : (k : ℕ) → (pow2 (suc k) - 1) / 2 ≡ pow2 k - 1
mask_half k = omega (arith, pow2_pos k)

-- Digit by digit against a mask, for any count of digits that the number does not exceed.
digits-mask :
    (k count : ℕ) → (x : ℕ) → x ≤ count → digits (λ _. zero) min count x (pow2 k - 1) ≡ x % pow2 k
digits-mask k zero zero below = sym (zero-mod_pow2 k)
digits-mask k zero (suc x) below = absurd (omega arith)
digits-mask k (suc count) zero below = sym (zero-mod_pow2 k)
digits-mask zero (suc count) (suc x) below =
    omega (arith, digits-mask zero count (suc x / 2) (omega arith))
digits-mask (suc k) (suc count) (suc x) below =
    let rest : digits (λ _. zero) min count (suc x / 2) ((pow2 (suc k) - 1) / 2)
        ≡ suc x / 2 % pow2 k =
      rw (mask_half k) (digits-mask k count (suc x / 2) (omega arith)) in
    omega (arith, rest, mask_odd k, mod_double (suc x) (pow2 k) (pow2_pos k))

pub bit_and-mask : (k a : ℕ) → bit_and a (pow2 k - 1) ≡ a % pow2 k
bit_and-mask k a = bit_and-bitwise a (pow2 k - 1) ∙ digits-mask k a a (omega arith)

pub mask-mod : (k x : ℕ) → mask (pow2 k) x ≡ x % pow2 k
unfolding mask
mask-mod k x = bit_and-mask k x

next_pow2_loop-pow2 : (fuel k n : ℕ) → (j : ℕ) × (next_pow2_loop fuel (pow2 k) n ≡ pow2 j)
unfolding next_pow2_loop
next_pow2_loop-pow2 zero k n = (k, refl)
next_pow2_loop-pow2 (suc fuel) k n = elim (Bool-cases (ltb (pow2 k) n)) [
  | inl e ↦ rw e (next_pow2_loop-pow2 fuel (suc k) n)
  | inr e ↦ (k, rw e)
]

next_pow2_loop-le : (fuel p n : ℕ) → n ≤ p * pow2 fuel → n ≤ next_pow2_loop fuel p n
unfolding next_pow2_loop
next_pow2_loop-le zero p n h = omega arith
next_pow2_loop-le (suc fuel) p n h = elim (Bool-cases (ltb p n)) [
  | inl e ↦ rw e (next_pow2_loop-le fuel (p * 2) n (grind arith))
  | inr e ↦ rw e (ground arith)
]

-- `next_pow2` returns a power of two.
pub next_pow2-pow2 : (n : ℕ) → (k : ℕ) × (next_pow2 n ≡ pow2 k)
unfolding next_pow2
next_pow2-pow2 n = next_pow2_loop-pow2 64 0 n

-- It is no smaller than its argument, up to the largest power of two that its rounds reach.
pub next_pow2-le : (n : ℕ) → n ≤ 2 ^ 64 → n ≤ next_pow2 n
unfolding next_pow2
next_pow2-le n h = next_pow2_loop-le 64 1 n (omega arith)

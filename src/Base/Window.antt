-- ===== src/Base/Window.antt =====
-- A window on circular storage: the elements that a queue over an array holds, oldest first.
use native.Mathlib.Nat.{mod-lt, div-add-mod, mul-le-mul_left, mod-add-mod, mod-mod}
use market_microstructure_en.Base.Tests.{leb, Bool-cases}
use market_microstructure_en.Base.Lists.{get_or, set, length, get_or-set_self, get_or-set_ne}
use Prim.Native.Nat.{ℕ, zero, suc, ◌+◌, ◌*◌, ◌%◌, ◌/◌, ◌≤◌, ◌<◌}
use mathlib.Core.Path.{◌≡◌, refl, sym, ap, ◌∙◌}
use mathlib.Core.Logic.{◌≢◌, inl, inr}
use mathlib.Core.List.{List, [], ◌∷◌, ◌++◌}
use native.Mathlib.Omega.{arith}

-- Two positions less than one turn apart are different.
pub mod-ne : (a b m : ℕ) → a < b → b < a + m → a % m ≢ b % m
mod-ne a b m h k q = elim (Bool-cases (leb (b / m) (a / m))) [
  | inl e ↦
      let le : m * (b / m) ≤ m * (a / m) = mul-le-mul_left m (ground arith) in
      omega (arith, div-add-mod a m, div-add-mod b m, q)
  | inr e ↦
      let lt : m * (a / m + 1) ≤ m * (b / m) = mul-le-mul_left m (ground arith) in
      let step : m * (a / m + 1) ≡ m * (a / m) + m = omega arith in
      omega (arith, div-add-mod a m, div-add-mod b m, q)
]

module _ {ℓ} {A : Type ℓ} (d : A) where
  -- The `n` elements from a position on.
  unfoldable pub window : ℕ → List A → ℕ → ℕ → List A
  window capacity storage tail zero = []
  window capacity storage tail (suc n) =
      get_or storage (tail % capacity) d ∷ window capacity storage (tail + 1) n

  pub window-set :
      (capacity : ℕ) (storage : List A) (tail n p : ℕ) (v : A)
      → tail + n ≤ p
      → p < tail + capacity
      → window capacity (set storage (p % capacity) v) tail n ≡ window capacity storage tail n
  unfolding window
  window-set capacity storage tail zero p v h k = refl
  window-set capacity storage tail (suc n) p v h k =
      rw
        (get_or-set_ne storage (p % capacity) (tail % capacity) v d
          (λ q. mod-ne tail p capacity (omega arith) k (sym q)))
        (ap (λ xs. get_or storage (tail % capacity) d ∷ xs)
          (window-set capacity storage (tail + 1) n p v (omega arith) (omega arith)))

  pub window-snoc :
      (capacity : ℕ) (storage : List A) (tail n : ℕ)
      → window capacity storage tail (suc n)
        ≡ window capacity storage tail n ++ (get_or storage ((tail + n) % capacity) d ∷ [])
  unfolding window
  window-snoc capacity storage tail zero =
      ap (λ p. get_or storage (p % capacity) d ∷ []) (omega arith)
  window-snoc capacity storage tail (suc n) =
      ap (λ xs. get_or storage (tail % capacity) d ∷ xs)
        (window-snoc capacity storage (tail + 1) n
          ∙ ap (λ p. window capacity storage (tail + 1) n ++ (get_or storage (p % capacity) d ∷ []))
              (omega arith))

  -- A write behind the last element adds it to the window.
  pub window-push :
      (capacity : ℕ) (storage : List A) (tail n : ℕ) (v : A)
      → length storage ≡ capacity
      → n < capacity
      → window capacity (set storage ((tail + n) % capacity) v) tail (suc n)
        ≡ window capacity storage tail n ++ (v ∷ [])
  window-push capacity storage tail n v stored room =
      window-snoc capacity (set storage ((tail + n) % capacity) v) tail n
      ∙ rw (window-set capacity storage tail n (tail + n) v (omega arith) (omega arith)) (
          ap (λ x. window capacity storage tail n ++ (x ∷ []))
            (get_or-set_self storage ((tail + n) % capacity) v d inside))
    where
      inside : (tail + n) % capacity < length storage
      inside =
          let positive : 0 < capacity = omega arith in
          omega (arith, stored, mod-lt (tail + n) positive)

  -- A window depends on its position up to whole turns.
  window_turn :
      (capacity : ℕ) (storage : List A) (t u n : ℕ)
      → t % capacity ≡ u % capacity
      → window capacity storage t n ≡ window capacity storage u n
  unfolding window
  window_turn capacity storage t u zero h = refl
  window_turn capacity storage t u (suc n) h = rw h (
      ap (λ xs. get_or storage (u % capacity) d ∷ xs)
        (window_turn capacity storage (t + 1) (u + 1) n next))
    where
      next : (t + 1) % capacity ≡ (u + 1) % capacity
      next =
          sym (mod-add-mod t capacity 1) ∙ ap (λ x. (x + 1) % capacity) h ∙ mod-add-mod u capacity 1

  pub window-mod :
      (capacity : ℕ) (storage : List A) (t n : ℕ)
      → window capacity storage (t % capacity) n ≡ window capacity storage t n
  window-mod capacity storage t n =
      window_turn capacity storage (t % capacity) t n (mod-mod t capacity)

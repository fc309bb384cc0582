-- ===== src/Core/RingBuffer/Queue.antt =====
-- The ring buffer is a bounded queue.
use mathlib.Core.Path.{subst}
use Prim.Native.Nat.{bit_and}
use native.Mathlib.Nat.{mod-lt}
use market_microstructure_en.Base.{
  ℕ, suc, ◌+◌, ◌-◌, ◌%◌, ◌≤◌, ◌<◌, ◌≡◌, refl, sym, ap, ◌∙◌, arith, true, false, ◌==◌, List, [], ◌∷◌,
  ◌++◌, none, some, get_or, set, length, length-set, length-replicate, get_or-set_self, Bool-cases,
  ◌⊎◌, inl, inr,
}
use market_microstructure_en.Base.Window.{window, window-set, window-snoc}
use market_microstructure_en.Base.Words.{add64, sub64, u64_mod}
use market_microstructure_en.Oms.Index.Mask.{pow2, bit_and-mask}
use market_microstructure_en.Core.RingBuffer.{RingBuffer, make_ring, try_push, try_pop}

module _ {ℓ} {A : Type ℓ} (d : A) where
  -- The elements of the buffer, oldest first.
  unfoldable pub contents : RingBuffer A → List A
  contents r = window d r.capacity r.storage r.tail (r.head - r.tail)

  -- The counters are in order, at most one turn apart, and have not wrapped around.
  pub record RingInv (r : RingBuffer A) : Type ℓ where
    pub width : ℕ
    pub turn : r.capacity ≡ pow2 width
    pub stored : length r.storage ≡ r.capacity
    pub ordered : r.tail ≤ r.head
    pub bounded : r.head ≤ r.tail + r.capacity
    pub word : r.head < u64_mod

  pub make_ring-Inv :
      (width : ℕ) → RingInv (make_ring (pow2 width) d) × (contents (make_ring (pow2 width) d) ≡ [])
  unfolding make_ring contents window
  make_ring-Inv width = (
    record {
      width = width;
      turn = refl;
      stored = length-replicate (pow2 width) d;
      ordered = omega arith;
      bounded = omega arith;
      word = omega arith;
    },
    refl,
  )

  masked : (r : RingBuffer A) (x : ℕ) → RingInv r → bit_and x (r.capacity - 1) ≡ x % r.capacity
  masked r x i = subst (λ c. bit_and x (c - 1) ≡ x % c) (sym i.turn) (bit_and-mask i.width x)

  pushed : RingBuffer A → A → RingBuffer A
  pushed r v = record r { storage = set r.storage (r.head % r.capacity) v; head = r.head + 1 }

  try_push-room :
      (r : RingBuffer A) (v : A)
      → RingInv r
      → r.head + 1 < u64_mod
      → r.head - r.tail < r.capacity
      → try_push r v ≡ (true, pushed r v)
  unfolding try_push pushed
  try_push-room r v i w room =
      let other : (sub64 r.head r.tail == r.capacity) ≡ false = ground (arith, i.ordered, i.word) in
      let next : add64 r.head 1 ≡ r.head + 1 = omega arith in rw (other, next, masked r r.head i)

  pushed-contents :
      (r : RingBuffer A) (v : A)
      → RingInv r
      → r.head - r.tail < r.capacity
      → contents (pushed r v) ≡ contents r ++ (v ∷ [])
  unfolding contents pushed
  pushed-contents r v i room =
      ap (window d r.capacity (set r.storage (r.head % r.capacity) v) r.tail) more
      ∙ window-snoc d r.capacity (set r.storage (r.head % r.capacity) v) r.tail n
      ∙ rw
          (window-set d r.capacity r.storage r.tail n r.head v (omega (arith, i.ordered))
            (omega (arith, i.ordered)))
          (ap (λ x. window d r.capacity r.storage r.tail n ++ (x ∷ [])) last)
    where
      n : ℕ
      n = r.head - r.tail

      more : r.head + 1 - r.tail ≡ suc n
      more = omega (arith, i.ordered)

      here : r.tail + n ≡ r.head
      here = omega (arith, i.ordered)

      inside : r.head % r.capacity < length r.storage
      inside =
          let positive : 0 < r.capacity = omega arith in
          omega (arith, i.stored, mod-lt r.head positive)

      last : get_or (set r.storage (r.head % r.capacity) v) ((r.tail + n) % r.capacity) d ≡ v
      last =
          ap (λ p. get_or (set r.storage (r.head % r.capacity) v) (p % r.capacity) d) here
          ∙ get_or-set_self r.storage (r.head % r.capacity) v d inside

  pushed-Inv :
      (r : RingBuffer A) (v : A)
      → RingInv r
      → r.head + 1 < u64_mod
      → r.head - r.tail < r.capacity
      → RingInv (pushed r v)
  unfolding pushed
  pushed-Inv r v i w room = record {
    width = i.width;
    turn = i.turn;
    stored = length-set r.storage (r.head % r.capacity) v ∙ i.stored;
    ordered = omega (arith, i.ordered);
    bounded = omega (arith, i.ordered);
    word = w;
  }

  -- A push on a buffer with room appends the value; on a full one it refuses and changes nothing.
  pub try_push-contents :
      (r : RingBuffer A) (v : A)
      → RingInv r
      → r.head + 1 < u64_mod
      → (r.head - r.tail ≡ r.capacity → try_push r v ≡ (false, r))
        × (r.head - r.tail < r.capacity
            → ((try_push r v).0 ≡ true)
              × (contents (try_push r v).1 ≡ contents r ++ (v ∷ []))
              × RingInv (try_push r v).1)
  unfolding try_push
  try_push-contents r v i w = (
    λ full.
        let all : (sub64 r.head r.tail == r.capacity) ≡ true = ground (arith, i.ordered, i.word) in
        rw all,
    λ room.
        rw (try_push-room r v i w room) (refl, pushed-contents r v i room, pushed-Inv r v i w room),
  )

  popped : RingBuffer A → RingBuffer A
  popped r = record r { tail = r.tail + 1 }

  try_pop-some :
      (r : RingBuffer A)
      → RingInv r
      → r.tail < r.head
      → try_pop d r ≡ (some (get_or r.storage (r.tail % r.capacity) d), popped r)
  unfolding try_pop popped
  try_pop-some r i h =
      let other : (r.tail == r.head) ≡ false = ground arith in
      let next : add64 r.tail 1 ≡ r.tail + 1 = omega (arith, i.word) in
      rw (other, next, masked r r.tail i)

  popped-contents :
      (r : RingBuffer A)
      → r.tail < r.head
      → contents r ≡ get_or r.storage (r.tail % r.capacity) d ∷ contents (popped r)
  unfolding contents popped window
  popped-contents r h =
      let more : r.head - r.tail ≡ suc (r.head - (r.tail + 1)) = omega arith in
      ap (window d r.capacity r.storage r.tail) more

  -- A pop takes the oldest element; on an empty buffer it returns nothing and changes nothing.
  pub try_pop-contents :
      (r : RingBuffer A)
      → RingInv r
      → ((r.tail ≡ r.head) × (contents r ≡ []) × (try_pop d r ≡ (none, r)))
        ⊎ ((x : A) × (r' : RingBuffer A) × (try_pop d r ≡ (some x, r'))
            × (contents r ≡ x ∷ contents r')
            × RingInv r')
  unfolding try_pop contents window popped
  try_pop-contents r i = elim (Bool-cases (r.tail == r.head)) [
    | inl e ↦
        let same : r.tail ≡ r.head = ground arith in
        let left : r.head - r.tail ≡ 0 = omega arith in
        inl (same, ap (window d r.capacity r.storage r.tail) left, rw e)
    | inr e ↦
        let h : r.tail < r.head = ground (arith, i.ordered) in
        inr (
          get_or r.storage (r.tail % r.capacity) d,
          popped r,
          try_pop-some r i h,
          popped-contents r h,
          record {
            width = i.width;
            turn = i.turn;
            stored = i.stored;
            ordered = omega arith;
            bounded = omega (arith, i.bounded);
            word = i.word;
          },
        )
  ]

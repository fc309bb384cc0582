-- ===== src/Core/RingBuffer.antt =====
-- include/core/ring_buffer.hpp: the ring buffer between one producer and one consumer.
pub mod Queue
use Prim.Native.Nat.{bit_and}
use market_microstructure_en.Base.{
  ℕ, ◌+◌, ◌-◌, Bool, true, false, ◌==◌, if◌then◌else◌, List, Option, none, some, get_or, set,
  replicate,
}
use market_microstructure_en.Base.Words.{add64, sub64}

-- `head` and `tail` are 64-bit counters that only grow.
pub record RingBuffer {ℓ} (A : Type ℓ) : Type ℓ where
  pub capacity : ℕ
  pub storage : List A
  pub head : ℕ
  pub tail : ℕ

module _ {ℓ} {A : Type ℓ} where
  -- A new buffer; `d` is the value-initialised element.
  unfoldable pub make_ring : ℕ → A → RingBuffer A
  make_ring capacity d = record {
    capacity = capacity;
    storage = replicate capacity d;
    head = 0;
    tail = 0;
  }

  unfoldable pub try_push : RingBuffer A → A → Bool × RingBuffer A
  try_push r value = if sub64 r.head r.tail == r.capacity then (false, r) else (
    true,
    record r {
      storage = set r.storage (bit_and r.head (r.capacity - 1)) value;
      head = add64 r.head 1;
    },
  )

  unfoldable pub try_pop : A → RingBuffer A → Option A × RingBuffer A
  try_pop d r = if r.tail == r.head then (none, r) else (
    some (get_or r.storage (bit_and r.tail (r.capacity - 1)) d),
    record r { tail = add64 r.tail 1 },
  )

  unfoldable pub ring_size : RingBuffer A → ℕ
  ring_size r = sub64 r.head r.tail

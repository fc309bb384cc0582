-- ===== src/Core/Tests.antt =====
-- The theorems on the ring buffer, the order of events and the backpressure policy at concrete values.
use market_microstructure_en.Core.SlabPool.{
  SlabHandle, SlabPool, make_pool, count_up, valid, acquire, acquire_from, release,
}
use market_microstructure_en.Core.SlabPool.Stale.{Sized, release_stale}
use market_microstructure_en.Base.{◌≢◌, ℕ, some}
use market_microstructure_en.Base.Words.{add32}
use market_microstructure_en.Base.{
  ℕ, ◌+◌, ◌-◌, ◌^◌, ◌<◌, ◌≡◌, ◌⊎◌, refl, arith, true, false, [], ◌∷◌, ◌++◌, none, some,
}
use market_microstructure_en.Oms.Index.Mask.{pow2}
use market_microstructure_en.Core.RingBuffer.{RingBuffer, make_ring, try_push, try_pop}
use market_microstructure_en.Core.RingBuffer.Queue.{
  contents, RingInv, make_ring-Inv, try_push-contents, try_pop-contents,
}
use market_microstructure_en.Core.EventOrder.{EventHeader, event_order_less}

abbrev ring : RingBuffer ℕ
ring = make_ring (pow2 2) 0

ring-Inv : RingInv 0 ring
ring-Inv = (make_ring-Inv 0 2).0

counter_room : ring.head + 1 < 2 ^ 64
unfolding make_ring
counter_room = omega arith

try_push-contents_example :
    (ring.head - ring.tail ≡ ring.capacity → try_push ring 7 ≡ (false, ring))
    × (ring.head - ring.tail < ring.capacity
        → ((try_push ring 7).0 ≡ true)
          × (contents 0 (try_push ring 7).1 ≡ contents 0 ring ++ (7 ∷ []))
          × RingInv 0 (try_push ring 7).1)
try_push-contents_example = try_push-contents 0 ring 7 ring-Inv counter_room

try_pop-contents_example :
    ((ring.tail ≡ ring.head) × (contents 0 ring ≡ []) × (try_pop 0 ring ≡ (none, ring)))
    ⊎ ((x : ℕ) × (r' : RingBuffer ℕ) × (try_pop 0 ring ≡ (some x, r'))
        × (contents 0 ring ≡ x ∷ contents 0 r')
        × RingInv 0 r')
try_pop-contents_example = try_pop-contents 0 ring ring-Inv

abbrev event_at : ℕ → ℕ → EventHeader
event_at ts seq = record {
  seq_global = 0;
  ts_broker_ns = 0;
  ts_terminal_ns = 0;
  ts_local_ns = ts;
  corr_id = 0;
  seq_source = seq;
  symbol_id = 0;
  source_id = 0;
  type = 0;
  source_priority = 0;
  flags = 0;
}

first_second : event_order_less (event_at 1 1) (event_at 1 2) ≡ true
unfolding event_order_less
first_second = refl

second_third : event_order_less (event_at 1 2) (event_at 2 0) ≡ true
unfolding event_order_less
second_third = refl

abbrev first_handle : SlabHandle
first_handle = record { index = 0; generation = 0 }

-- A pool of four slabs, the first of which is in use.
abbrev one_used : SlabPool
one_used = (acquire (make_pool 4)).1

one_used-Sized : Sized one_used
unfolding acquire acquire_from make_pool count_up
one_used-Sized = record { generations_size = refl; used_size = refl }

one_used_valid : valid one_used first_handle ≡ true
unfolding valid acquire acquire_from make_pool count_up
one_used_valid = refl

release_stale_example :
    (valid (release one_used first_handle).1 first_handle ≡ false)
    × ((other : SlabHandle)
        → other.index ≢ 0
        → valid (release one_used first_handle).1 other ≡ valid one_used other)
    × ((acquire (release one_used first_handle).1).0
        ≡ some (record { index = 0; generation = add32 0 1 }))
    × (valid (acquire (release one_used first_handle).1).1 first_handle ≡ false)
    × (valid
          (acquire (release one_used first_handle).1).1
          (record { index = 0; generation = add32 0 1 })
        ≡ true)
release_stale_example =
    release_stale one_used first_handle one_used-Sized (omega arith) one_used_valid

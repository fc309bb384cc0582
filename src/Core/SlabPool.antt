-- ===== src/Core/SlabPool.antt =====
-- include/core/slab_pool.hpp: a pool of slabs with handles that a release makes stale. The contents of
-- the slabs are bytes that the pool never reads.
use market_microstructure_en.Base.{
  ℕ, zero, suc, ◌-◌, ◌+◌, ◌≤◌, ◌<◌, Bool, true, false, ◌&&◌, ◌==◌, ltb, if◌then◌else◌, List, [],
  ◌∷◌, length, set, get_or, replicate, Option, none, some, ◌≡◌, refl, arith,
}
use market_microstructure_en.Base.Words.{add32}
pub mod Stale

pub record SlabHandle : Type 0 where
  pub index : ℕ
  pub generation : ℕ

-- `free_[0, free_count_)` is kept with its last entry first.
pub record SlabPool : Type 0 where
  pub capacity : ℕ
  pub generations : List ℕ
  pub free : List ℕ
  pub used : List Bool

-- `n, n + 1, …` over `count` places: the indexes in the order in which they are acquired.
unfoldable pub count_up : ℕ → ℕ → List ℕ
count_up n zero = []
count_up n (suc count) = n ∷ count_up (suc n) count

unfoldable pub make_pool : ℕ → SlabPool
make_pool capacity = record {
  capacity = capacity;
  generations = replicate capacity 0;
  free = count_up 0 capacity;
  used = replicate capacity false;
}

unfoldable pub valid : SlabPool → SlabHandle → Bool
valid pool handle =
    ltb handle.index pool.capacity
    && get_or pool.used handle.index false
    && (get_or pool.generations handle.index 0 == handle.generation)

unfoldable pub acquire_from : SlabPool → List ℕ → Option SlabHandle × SlabPool
acquire_from pool [] = (none, pool)
acquire_from pool (index ∷ free) = (
  some (record { index = index; generation = get_or pool.generations index 0 }),
  record pool { free = free; used = set pool.used index true },
)

unfoldable pub acquire : SlabPool → Option SlabHandle × SlabPool
acquire pool = acquire_from pool pool.free

unfoldable pub release : SlabPool → SlabHandle → Bool × SlabPool
release pool handle =
    if valid pool handle
    then (
      true,
      record pool {
        generations =
            set pool.generations handle.index (add32 (get_or pool.generations handle.index 0) 1);
        free = handle.index ∷ pool.free;
        used = set pool.used handle.index false;
      },
    )
    else (false, pool)

-- `get`: the slab of a handle, by its index.
unfoldable pub get_slab : SlabPool → SlabHandle → Option ℕ
get_slab pool handle = if valid pool handle then some handle.index else none

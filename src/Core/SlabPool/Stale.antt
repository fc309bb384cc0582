-- ===== src/Core/SlabPool/Stale.antt =====
-- A handle that is released is stale, and stays so when its slab is acquired again.
use market_microstructure_en.Base.{
  ℕ, ◌≡◌, ◌≢◌, ◌<◌, ◌&&◌, ◌==◌, refl, sym, ◌∙◌, arith, true, false, some, length, get_or, set,
  get_or-set_self, get_or-set_ne, length-set, ==_iff, Bool, ◌∷◌, lt→ltb,
}
use market_microstructure_en.Base.Words.{add32, u32_mod}
use market_microstructure_en.Core.SlabPool.{
  SlabHandle, SlabPool, valid, acquire, acquire_from, release,
}

-- What a slab and its counter are after a valid handle is released.
pub record Sized (pool : SlabPool) : Type 0 where
  pub generations_size : length pool.generations ≡ pool.capacity
  pub used_size : length pool.used ≡ pool.capacity

next_differs : (g : ℕ) → g < u32_mod → (add32 g 1 == g) ≡ false
next_differs g h = ground arith

valid_parts :
    (pool : SlabPool) (h : SlabHandle)
    → valid pool h ≡ true
    → (h.index < pool.capacity) × (get_or pool.generations h.index 0 ≡ h.generation)
unfolding valid
valid_parts pool h v = (grind arith, grind arith)

valid_at :
    (pool : SlabPool) (h : SlabHandle) (b : Bool) (g : ℕ)
    → h.index < pool.capacity
    → get_or pool.used h.index false ≡ b
    → get_or pool.generations h.index 0 ≡ g
    → valid pool h ≡ (b && (g == h.generation))
unfolding valid
valid_at pool h b g inside u e = rw (lt→ltb _ _ inside, u, e) refl

-- The pool after a valid handle is released, and after the slab is acquired again.
abbrev freed : SlabPool → SlabHandle → SlabPool
freed pool h = record pool {
  generations = set pool.generations h.index (add32 h.generation 1);
  free = h.index ∷ pool.free;
  used = set pool.used h.index false;
}

abbrev again : SlabPool → SlabHandle → SlabPool
again pool h = record (freed pool h) {
  free = pool.free;
  used = set (freed pool h).used h.index true;
}

release-valid :
    (pool : SlabPool) (h : SlabHandle) → valid pool h ≡ true → release pool h ≡ (true, freed pool h)
unfolding release
release-valid pool h v = rw (v, (valid_parts pool h v).1) refl

acquire-freed :
    (pool : SlabPool) (h : SlabHandle)
    → h.index < length pool.generations
    → acquire (freed pool h)
      ≡ (some (record { index = h.index; generation = add32 h.generation 1 }), again pool h)
unfolding acquire acquire_from
acquire-freed pool h inside =
    rw (get_or-set_self pool.generations h.index (add32 h.generation 1) 0 inside) refl

freed_other :
    (pool : SlabPool) (h other : SlabHandle)
    → other.index ≢ h.index
    → valid (freed pool h) other ≡ valid pool other
unfolding valid
freed_other pool h other ne =
    rw
      (
        get_or-set_ne pool.generations h.index other.index (add32 h.generation 1) 0
            (λ e. ne (sym e)),
        get_or-set_ne pool.used h.index other.index false false (λ e. ne (sym e)),
      )
      refl

-- Releasing a valid handle makes it stale and leaves the handles of other slabs as they were; its slab
-- is the next to be acquired, under the next generation (of a 32-bit counter), and then the new handle
-- is valid and the old one still stale.
pub release_stale :
    (pool : SlabPool) (h : SlabHandle)
    → Sized pool
    → h.generation < u32_mod
    → valid pool h ≡ true
    → (valid (release pool h).1 h ≡ false)
      × ((other : SlabHandle)
          → other.index ≢ h.index
          → valid (release pool h).1 other ≡ valid pool other)
      × ((acquire (release pool h).1).0
          ≡ some (record { index = h.index; generation = add32 h.generation 1 }))
      × (valid (acquire (release pool h).1).1 h ≡ false)
      × (valid
            (acquire (release pool h).1).1
            (record { index = h.index; generation = add32 h.generation 1 })
          ≡ true)
release_stale pool h sized small v =
    let (inside, now) = valid_parts pool h v in
    let in_g : h.index < length pool.generations = omega arith in
    let in_u : h.index < length pool.used = omega arith in
    let in_f : h.index < length (set pool.used h.index false) =
      omega (arith, length-set pool.used h.index false) in
    let next = get_or-set_self pool.generations h.index (add32 h.generation 1) 0 in_g in
    let on = get_or-set_self (set pool.used h.index false) h.index true false in_f in
    rw (release-valid pool h v, acquire-freed pool h in_g)
      (
        valid_at (freed pool h) h false _ inside
            (get_or-set_self pool.used h.index false false in_u) next,
        freed_other pool h,
        refl,
        valid_at (again pool h) h true _ inside on next ∙ next_differs h.generation small,
        valid_at (again pool h) (record { index = h.index; generation = add32 h.generation 1 }) true
              _ inside on next
            ∙ (==_iff _ _).1 refl,
      )

-- ===== src/Oms/Report/Cache.antt =====
-- The cache of finished orders remembers what was last put into it.
use market_microstructure_en.Base.{
  ℕ, zero, suc, ◌+◌, ◌%◌, ◌≤◌, ◌<◌, ◌≡◌, refl, ap, ◌∙◌, arith, ltb, ◌==◌, true, if◌then◌else◌, List,
  [], ◌∷◌, Bool-cases, inl, inr, set, length, length-set, take, length-replicate,
}
use native.Mathlib.Nat.{mod-lt, mod-eq_of_lt}
use market_microstructure_en.Base.Words.{u64_mod, add64}
use market_microstructure_en.Exec.Types.{BrokerOrderRef, ref_eq_refl, no_ref}
use market_microstructure_en.Oms.Report.{TerminalCache, make_cache, remember, any_ref, contains}

-- The ring is filled up to `count`, and written from its start until it is full.
pub record CacheInv (cache : TerminalCache) : Type 0 where
  pub positive : 0 < cache.capacity
  pub word : cache.capacity < u64_mod
  pub filled_to : length cache.ring ≡ cache.capacity
  pub bounded : cache.count ≤ cache.capacity
  pub growing : cache.count < cache.capacity → cache.written ≡ cache.count

pub make_cache-Inv : (capacity : ℕ) → capacity < u64_mod → CacheInv (make_cache capacity)
unfolding make_cache
make_cache-Inv capacity h = elim (Bool-cases (capacity == 0)) [
  | inl e ↦ rw e (record {
    positive = omega arith;
    word = omega arith;
    filled_to = refl;
    bounded = omega arith;
    growing = λ _. refl;
  })
  | inr e ↦ rw e (record {
    positive = ground arith;
    word = h;
    filled_to = length-replicate capacity no_ref;
    bounded = omega arith;
    growing = λ _. refl;
  })
]

-- The position that is written next is one that `contains` will read.
next_position :
    (cache : TerminalCache)
    → CacheInv cache
    → (cache.written % cache.capacity < cache.capacity)
      × (cache.count < cache.capacity → cache.written % cache.capacity ≡ cache.count)
next_position cache v = (
  mod-lt cache.written v.positive,
  λ h. ap (λ n. n % cache.capacity) (v.growing h) ∙ mod-eq_of_lt h,
)

any_ref-set :
    (ref : BrokerOrderRef) (xs : List BrokerOrderRef) (n i : ℕ)
    → i < n
    → i < length xs
    → any_ref ref (take n (set xs i ref)) ≡ true
unfolding any_ref
any_ref-set ref [] n i h k = absurd (omega arith)
any_ref-set ref (x ∷ xs) zero i h k = absurd (omega arith)
any_ref-set ref (x ∷ xs) (suc n) zero h k = rw (ref_eq_refl ref)
any_ref-set ref (x ∷ xs) (suc n) (suc i) h k =
    rw (any_ref-set ref xs n i (omega arith) (omega arith)) (ground arith)

-- A reference that was just remembered is in the cache.
pub contains-remember :
    (cache : TerminalCache) (ref : BrokerOrderRef)
    → CacheInv cache
    → contains (remember cache ref) ref ≡ true
unfolding contains remember
contains-remember cache ref v =
    let (inside, next) = next_position cache v in
    elim (Bool-cases (ltb cache.count cache.capacity)) [
      | inl e ↦
          let room : cache.count < cache.capacity = ground arith in
          rw e (
            any_ref-set ref cache.ring (cache.count + 1) _ (omega (arith, next room))
              (omega (arith, v.filled_to)))
      | inr e ↦
          let full : cache.capacity ≤ cache.count = ground arith in
          rw e (any_ref-set ref cache.ring cache.count _ (omega arith) (omega (arith, v.filled_to)))
    ]

pub remember-Inv :
    (cache : TerminalCache) (ref : BrokerOrderRef) → CacheInv cache → CacheInv (remember cache ref)
unfolding remember
remember-Inv cache ref v = record {
  positive = v.positive;
  word = v.word;
  filled_to = length-set cache.ring _ ref ∙ v.filled_to;
  bounded = ground (arith, v.bounded);
  growing = grow;
}
  where
    grow :
        (if ltb cache.count cache.capacity then cache.count + 1 else cache.count) < cache.capacity
        → add64 cache.written 1
          ≡ (if ltb cache.count cache.capacity then cache.count + 1 else cache.count)
    grow = elim (Bool-cases (ltb cache.count cache.capacity)) [
      | inl e ↦ rw e (λ h. omega (arith, v.growing (omega arith), v.word))
      | inr e ↦ rw e (λ h. absurd (ground arith))
    ]

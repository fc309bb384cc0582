-- ===== src/Oms/Index.antt =====
-- include/oms/oms.hpp: the open-addressed index from order references to slots.
pub mod Probe
pub mod Table
pub mod Mask
pub mod Indexed
pub mod Reclaim
pub mod Rehash
use Prim.Native.Nat.{bit_and, bit_xor}
use market_microstructure_en.Base.{
  ℕ, zero, suc, ◌+◌, ◌-◌, ◌*◌, ◌/◌, ◌%◌, ◌^◌, Bool, true, false, ◌&&◌, ◌||◌, not, ◌==◌, ltb, leb,
  if◌then◌else◌, List, [], ◌∷◌, Option, none, some, get_or, set, replicate, length,
}
use market_microstructure_en.Base.Words.{mul64, shr}
use market_microstructure_en.Exec.Types.{BrokerOrderRef, Order, default_order, ref_eq}

-- `while (p < n) p <<= 1`; a round doubles `p`, so 64 rounds reach every 64-bit `n`.
unfoldable pub next_pow2_loop : ℕ → ℕ → ℕ → ℕ
next_pow2_loop zero p n = p
next_pow2_loop (suc fuel) p n =
    let rest = next_pow2_loop fuel (p * 2) n in if ltb p n then rest else p

unfoldable pub next_pow2 : ℕ → ℕ
unfolding next_pow2_loop
next_pow2 n = next_pow2_loop 64 1 n

-- `x ^= x >> k; x *= c`
abbrev xor_shift : ℕ → ℕ → ℕ
xor_shift x k = bit_xor x (shr x k)

unfoldable pub mix_ref : BrokerOrderRef → ℕ
mix_ref ref =
    let x0 = bit_xor ref.logical_order_id (mul64 ref.run_id 0x9E3779B97F4A7C15) in
    let x1 = mul64 (xor_shift x0 30) 0xBF58476D1CE4E5B9 in
    let x2 = mul64 (xor_shift x1 27) 0x94D049BB133111EB in xor_shift x2 31

abbrev pub empty_marker : ℕ
empty_marker = 0

abbrev pub tombstone_marker : ℕ
tombstone_marker = 1

abbrev pub occupied_bias : ℕ
occupied_bias = 2

-- `x & (index_capacity_ - 1)`
unfoldable pub mask : ℕ → ℕ → ℕ
mask index_capacity x = bit_and x (index_capacity - 1)

unfoldable pub home_of : ℕ → BrokerOrderRef → ℕ
home_of index_capacity ref = mask index_capacity (mix_ref ref)

-- `orders_[v - occupied_bias].ref`
unfoldable pub ref_at : List Order → ℕ → BrokerOrderRef
ref_at orders v = (get_or orders (v - occupied_bias) default_order).ref

-- The loop of `index_probe_find` from `step`, with `left` rounds to go. `none` stands for the
-- source's `index_capacity_`, "not found".
unfoldable pub probe_from : List Order → List ℕ → ℕ → BrokerOrderRef → ℕ → ℕ → ℕ → Option ℕ
probe_from orders index index_capacity ref home step zero = none
probe_from orders index index_capacity ref home step (suc left) =
    let pos = mask index_capacity (home + step) in
    let v = get_or index pos empty_marker in
    let rest = probe_from orders index index_capacity ref home (suc step) left in
    if v == empty_marker
    then none
    else if not (v == tombstone_marker) && ref_eq (ref_at orders v) ref
    then some pos
    else rest

unfoldable pub index_probe_find : List Order → List ℕ → ℕ → BrokerOrderRef → Option ℕ
index_probe_find orders index index_capacity ref =
    probe_from orders index index_capacity ref (home_of index_capacity ref) 0 index_capacity

-- The loop of `index_insert`: the new index, and the new number of tombstones.
unfoldable pub insert_from : List ℕ → ℕ → ℕ → ℕ → ℕ → ℕ → ℕ → List ℕ × ℕ
insert_from index tombstones index_capacity slot home step zero = (index, tombstones)
insert_from index tombstones index_capacity slot home step (suc left) =
    let pos = mask index_capacity (home + step) in
    let v = get_or index pos empty_marker in
    let rest = insert_from index tombstones index_capacity slot home (suc step) left in
    if (v == empty_marker) || (v == tombstone_marker)
    then (
      set index pos (slot + occupied_bias),
      if v == tombstone_marker then tombstones - 1 else tombstones,
    )
    else rest

unfoldable pub index_insert : List ℕ → ℕ → ℕ → BrokerOrderRef → ℕ → List ℕ × ℕ
index_insert index tombstones index_capacity ref slot =
    insert_from index tombstones index_capacity slot (home_of index_capacity ref) 0 index_capacity

-- The loop of `rehash` over the live slots from `slot` on.
unfoldable pub reinsert_from : List ℕ → ℕ → ℕ → List Order → ℕ → List ℕ × ℕ
reinsert_from index tombstones index_capacity [] slot = (index, tombstones)
reinsert_from index tombstones index_capacity (o ∷ os) slot =
    let (index', tombstones') = index_insert index tombstones index_capacity o.ref slot in
    reinsert_from index' tombstones' index_capacity os (suc slot)

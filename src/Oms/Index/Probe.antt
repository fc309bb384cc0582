-- ===== src/Oms/Index/Probe.antt =====
-- The two probe loops of the index: a lookup finds the slot of a reference and no other, and an
-- insertion finds a free place while fewer slots are in use than the table has places.
use native.Mathlib.Nat.{mod-lt}
use mathlib.Core.Bool.{true≢false}
use market_microstructure_en.Base.{
  ℕ, zero, suc, ◌+◌, ◌-◌, ◌%◌, ◌≤◌, ◌<◌, ◌≡◌, ◌≢◌, refl, sym, ◌∙◌, arith, leb, ◌==◌, if◌then◌else◌,
  List, set, length, get_or-set_self, Bool-cases, inl, inr, ◌⊎◌, none, some,
}
use market_microstructure_en.Exec.Types.{BrokerOrderRef, Order, ref_eq, ref_eq_iff}
use market_microstructure_en.Oms.Index.{
  home_of, ref_at, probe_from, index_probe_find, insert_from, index_insert, mix_ref,
}
use market_microstructure_en.Oms.Index.Mask.{pow2, pow2_pos, mask-mod}
use market_microstructure_en.Oms.Index.Table.{
  at, Placed, set-ne-zero, filled, filled_full, walk_covers,
}

module _ (k : ℕ) (orders : List Order) (index : List ℕ) (ref : BrokerOrderRef) (h : ℕ) where
  abbrev value : ℕ → ℕ
  value step = at index ((h + step) % pow2 k)

  probe_empty :
      (step left : ℕ)
      → value step ≡ 0
      → probe_from orders index (pow2 k) ref h step (suc left) ≡ none
  unfolding probe_from
  probe_empty step left e = rw (mask-mod k (h + step), e)

  probe_match :
      (step left : ℕ)
      → 2 ≤ value step
      → ref_at orders (value step) ≡ ref
      → probe_from orders index (pow2 k) ref h step (suc left) ≡ some ((h + step) % pow2 k)
  unfolding probe_from
  probe_match step left two e =
      rw (mask-mod k (h + step)) (ground (arith, (ref_eq_iff (ref_at orders (value step)) ref).1 e))

  probe_skip :
      (step left : ℕ)
      → value step ≢ 0
      → (2 ≤ value step → ref_at orders (value step) ≢ ref)
      → probe_from orders index (pow2 k) ref h step (suc left)
        ≡ probe_from orders index (pow2 k) ref h (suc step) left
  unfolding probe_from
  probe_skip step left nz ne =
      rw (mask-mod k (h + step)) (ground (arith, (ref_eq_iff (ref_at orders (value step)) ref).0))

  -- Whether the entry at `step` belongs to the reference.
  Own : ℕ → Type 0
  Own step = (2 ≤ value step) × (ref_at orders (value step) ≡ ref)

  Own-cases : (step : ℕ) → Own step ⊎ (2 ≤ value step → ref_at orders (value step) ≢ ref)
  unfolding Own
  Own-cases step = elim (Bool-cases (leb 2 (value step))) [
    | inl two ↦ elim (Bool-cases (ref_eq (ref_at orders (value step)) ref)) [
      | inl same ↦ inl (ground arith, (ref_eq_iff (ref_at orders (value step)) ref).0 same)
      | inr other ↦
          inr (λ _ e. true≢false (sym ((ref_eq_iff (ref_at orders (value step)) ref).1 e) ∙ other))
    ]
    | inr few ↦ inr (λ two _. absurd (ground arith))
  ]

  probe_hit :
      (s : ℕ) (c : Placed (pow2 k) index h (s + 2))
      → ref_at orders (s + 2) ≡ ref
      → ((p : ℕ)
          → p < pow2 k
          → 2 ≤ at index p
          → ref_at orders (at index p) ≡ ref
          → at index p ≡ s + 2)
      → (step left : ℕ) → step ≤ c.offset
      → step + left ≡ pow2 k
      → (p : ℕ) × (probe_from orders index (pow2 k) ref h step left ≡ some p)
        × (p < pow2 k)
        × (at index p ≡ s + 2)
  unfolding Own
  probe_hit s c own only step zero le e = absurd (omega (arith, c.within))
  probe_hit s c own only step (suc left) le e = elim (Own-cases step) [
    | inl (two, same) ↦ (
      (h + step) % pow2 k,
      probe_match step left two same,
      mod-lt (h + step) (pow2_pos k),
      only ((h + step) % pow2 k) (mod-lt (h + step) (pow2_pos k)) two same,
    )
    | inr other ↦ elim (Bool-cases (step == c.offset)) [
      | inl last ↦
          let eq : step ≡ c.offset = ground arith in
          let v : value step ≡ s + 2 = rw eq c.here in absurd (other (omega (arith, v)) (rw v own))
      | inr before ↦
          rw (probe_skip step left (c.no_gap step (ground arith)) other)
            (probe_hit s c own only (suc step) left (ground arith) (omega arith))
    ]
  ]

  probe_miss :
      ((p : ℕ) → p < pow2 k → 2 ≤ at index p → ref_at orders (at index p) ≢ ref)
      → (step left : ℕ) → probe_from orders index (pow2 k) ref h step left ≡ none
  unfolding probe_from
  probe_miss none_own step zero = refl
  probe_miss none_own step (suc left) = elim (Bool-cases (value step == 0)) [
    | inl e ↦ probe_empty step left (ground arith)
    | inr e ↦
        probe_skip step left (ground arith)
          (none_own ((h + step) % pow2 k) (mod-lt (h + step) (pow2_pos k)))
        ∙ probe_miss none_own (suc step) left
  ]

module _ (k : ℕ) (index : List ℕ) (tombstones slot h : ℕ) where
  -- What an insertion does: it takes a free place on the walk, before any empty one.
  pub record Inserted (out : List ℕ × ℕ) : Type 0 where
    pub place : ℕ
    pub place_in : place < pow2 k
    pub was_free : at index place < 2
    pub written : out.0 ≡ set index place (slot + 2)
    pub counted : out.1 ≡ (if at index place == 1 then tombstones - 1 else tombstones)
    pub reached : Placed (pow2 k) (set index place (slot + 2)) h (slot + 2)

  slot_value : ℕ → ℕ
  slot_value step = at index ((h + step) % pow2 k)

  insert_skip :
      (step left : ℕ)
      → 2 ≤ slot_value step
      → insert_from index tombstones (pow2 k) slot h step (suc left)
        ≡ insert_from index tombstones (pow2 k) slot h (suc step) left
  unfolding insert_from slot_value
  insert_skip step left used = rw (mask-mod k (h + step)) (ground arith)

  insert_take :
      (step left : ℕ)
      → slot_value step < 2
      → insert_from index tombstones (pow2 k) slot h step (suc left) ≡ (
        set index ((h + step) % pow2 k) (slot + 2),
        if slot_value step == 1 then tombstones - 1 else tombstones,
      )
  unfolding insert_from slot_value
  insert_take step left free = rw (mask-mod k (h + step)) (ground arith)

  insert_lem :
      length index ≡ pow2 k
      → h < pow2 k
      → filled index < pow2 k
      → (step left : ℕ) → step + left ≡ pow2 k
      → ((i : ℕ) → i < step → 2 ≤ at index ((h + i) % pow2 k))
      → Inserted (insert_from index tombstones (pow2 k) slot h step left)
  unfolding slot_value
  insert_lem len hh room step zero e full = absurd (omega (arith, filled_full index all, len))
    where
      all : (p : ℕ) → p < length index → 2 ≤ at index p
      all p hp =
          let (i, hi, ei) = walk_covers (pow2 k) h p hh (omega arith) in
          rw (← ei) (full i (omega arith))
  insert_lem len hh room step (suc left) e full = elim (Bool-cases (leb 2 (slot_value step))) [
    | inl used ↦
        rw (insert_skip step left (ground arith)) (
          insert_lem len hh room (suc step) left (omega arith) (λ i hi. longer i hi (ground arith)))
    | inr free ↦ rw (insert_take step left (ground arith)) (record {
      place = (h + step) % pow2 k;
      place_in = mod-lt (h + step) (pow2_pos k);
      was_free = ground arith;
      written = refl;
      counted = refl;
      reached = record {
        offset = step;
        within = omega arith;
        here = get_or-set_self index _ (slot + 2) 0 place_in;
        no_gap = λ i hi.
            set-ne-zero index _ (slot + 2) _ place_in (omega arith) (omega (arith, full i hi));
      };
    })
  ]
    where
      place_in : (h + step) % pow2 k < length index
      place_in = omega (arith, mod-lt (h + step) (pow2_pos k))

      longer : (i : ℕ) → i < suc step → 2 ≤ slot_value step → 2 ≤ at index ((h + i) % pow2 k)
      longer i hi used = elim (Bool-cases (i == step)) [
        | inl same ↦ let eq : i ≡ step = ground arith in rw eq used
        | inr below ↦ full i (ground arith)
      ]

-- The home of a reference is a place of the table.
pub home_of-lt : (k : ℕ) (ref : BrokerOrderRef) → home_of (pow2 k) ref < pow2 k
unfolding home_of
home_of-lt k ref = rw (mask-mod k (mix_ref ref)) (mod-lt (mix_ref ref) (pow2_pos k))

pub index_insert-Inserted :
    (k : ℕ) (index : List ℕ) (tombstones : ℕ) (ref : BrokerOrderRef) (slot : ℕ)
    → length index ≡ pow2 k
    → filled index < pow2 k
    → Inserted k index tombstones slot
        (home_of (pow2 k) ref)
        (index_insert index tombstones (pow2 k) ref slot)
unfolding index_insert
index_insert-Inserted k index tombstones ref slot len room =
    insert_lem k index tombstones slot (home_of (pow2 k) ref) len (home_of-lt k ref) room 0 (pow2 k)
      (omega arith) (λ i hi. absurd (omega arith))

pub index_probe_find-hit :
    (k : ℕ) (orders : List Order) (index : List ℕ) (ref : BrokerOrderRef) (s : ℕ)
    → Placed (pow2 k) index (home_of (pow2 k) ref) (s + 2)
    → ref_at orders (s + 2) ≡ ref
    → ((p : ℕ)
        → p < pow2 k
        → 2 ≤ at index p
        → ref_at orders (at index p) ≡ ref
        → at index p ≡ s + 2)
    → (p : ℕ) × (index_probe_find orders index (pow2 k) ref ≡ some p)
      × (p < pow2 k)
      × (at index p ≡ s + 2)
unfolding index_probe_find
index_probe_find-hit k orders index ref s c own only =
    probe_hit k orders index ref (home_of (pow2 k) ref) s c own only 0 (pow2 k) (omega arith)
      (omega arith)

pub index_probe_find-miss :
    (k : ℕ) (orders : List Order) (index : List ℕ) (ref : BrokerOrderRef)
    → ((p : ℕ) → p < pow2 k → 2 ≤ at index p → ref_at orders (at index p) ≢ ref)
    → index_probe_find orders index (pow2 k) ref ≡ none
unfolding index_probe_find
index_probe_find-miss k orders index ref none_own =
    probe_miss k orders index ref (home_of (pow2 k) ref) none_own 0 (pow2 k)

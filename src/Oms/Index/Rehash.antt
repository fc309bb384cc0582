-- ===== src/Oms/Index/Rehash.antt =====
-- A rehash of the index, and the index of a new store.
use market_microstructure_en.Base.{
  ℕ, suc, ◌+◌, ◌<◌, ◌≡◌, ◌≢◌, refl, sym, ap, ◌∙◌, arith, List, [], ◌∷◌, ◌++◌, length, length-append,
  get_or-append_left, replicate, length-replicate, get_or-replicate,
}
use mathlib.Core.List.{append_assoc, append-nil}
use market_microstructure_en.Exec.Types.{Order, default_order}
use market_microstructure_en.Oms.Index.{index_insert, reinsert_from}
use market_microstructure_en.Oms.Index.Mask.{pow2}
use market_microstructure_en.Oms.Index.Table.{filled-replicate}
use market_microstructure_en.Oms.Index.Indexed.{Indexed, key, append-Indexed}

key_left : (xs ys : List Order) (s : ℕ) → s < length xs → key (xs ++ ys) s ≡ key xs s
key_left xs ys s h = ap (λ (x : Order). x.ref) (get_or-append_left xs ys s default_order h)

key_middle :
    (xs : List Order) (o : Order) (ys : List Order) → key (xs ++ (o ∷ ys)) (length xs) ≡ o.ref
key_middle [] o ys = refl
key_middle (x ∷ xs) o ys = key_middle xs o ys

-- An empty index is the index of no orders.
pub empty-Indexed : (k : ℕ) → Indexed k [] (replicate (pow2 k) 0)
empty-Indexed k = record {
  size_ok = length-replicate (pow2 k) 0;
  used = filled-replicate (pow2 k);
  reach = λ s h. absurd (omega arith);
  once = λ p q hp hq two e. absurd (omega (arith, get_or-replicate {A = ℕ} (pow2 k) p 0 0 hp));
  live = λ p hp two. absurd (omega (arith, get_or-replicate {A = ℕ} (pow2 k) p 0 0 hp));
  distinct = λ s t hs ht e. absurd (omega arith);
}

abbrev pub Distinct : List Order → Type 0
Distinct orders =
    (s t : ℕ) → s < length orders → t < length orders → key orders s ≡ key orders t → s ≡ t

-- Inserting the slots one by one behind those already indexed.
reinsert_from-Indexed :
    (k : ℕ) (all : List Order)
    → length all < pow2 k
    → Distinct all
    → (index : List ℕ) (tombstones n : ℕ) (before orders : List Order) → before ++ orders ≡ all
    → n ≡ length before
    → Indexed k before index
    → Indexed k all (reinsert_from index tombstones (pow2 k) orders n).0
unfolding reinsert_from
reinsert_from-Indexed k all room distinct index tombstones n before [] e en ix =
    rw (← e) (rw append-nil ix)
reinsert_from-Indexed k all room distinct index tombstones n before (o ∷ os) e en ix =
    reinsert_from-Indexed k all room distinct (index_insert index tombstones (pow2 k) o.ref n).0
      (index_insert index tombstones (pow2 k) o.ref n).1 (suc n) (before ++ (o ∷ [])) os
      (append_assoc before (o ∷ []) os ∙ e) (omega (arith, en, length-append before (o ∷ [])))
      (rw en (append-Indexed k before index tombstones o ix (omega (arith, total)) fresh))
  where
    total : length all ≡ length before + suc (length os)
    total = omega (arith, ap length e, length-append before (o ∷ os))

    here : key all (length before) ≡ o.ref
    here = rw (← e) (key_middle before o os)

    fresh : (s : ℕ) → s < length before → key before s ≢ o.ref
    fresh s hs q =
        let left : key all s ≡ key before s = rw (← e) (key_left before (o ∷ os) s hs) in
        let same : s ≡ length before =
          distinct s (length before) (omega (arith, total)) (omega (arith, total))
            (left ∙ q ∙ sym here) in
        absurd (omega arith)

-- `rehash`: the live slots are inserted into an empty index.
pub rehash-Indexed :
    (k : ℕ) (orders : List Order)
    → length orders < pow2 k
    → Distinct orders
    → Indexed k orders (reinsert_from (replicate (pow2 k) 0) 0 (pow2 k) orders 0).0
rehash-Indexed k orders room distinct =
    reinsert_from-Indexed k orders room distinct (replicate (pow2 k) 0) 0 0 [] orders refl refl
      (empty-Indexed k)

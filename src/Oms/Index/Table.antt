-- ===== src/Oms/Index/Table.antt =====
-- Open-addressed tables over a power of two: entries reachable from their homes, and counts.
use native.Mathlib.Nat.{mod-eq_of_lt}
use market_microstructure_en.Base.{
  ℕ, zero, suc, ◌+◌, ◌-◌, ◌%◌, ◌≤◌, ◌<◌, ◌≡◌, ◌≢◌, refl, ap, ◌∙◌, arith, leb, ◌==◌, if◌then◌else◌,
  List, [], ◌∷◌, get_or, set, length, get_or-set_self, get_or-set_ne, replicate, Bool-cases, inl,
  inr,
}

abbrev pub at : List ℕ → ℕ → ℕ
at index p = get_or index p 0

-- The value `v` stands on the walk from `h`, with no empty place before it.
pub record Placed (n : ℕ) (index : List ℕ) (h v : ℕ) : Type 0 where
  pub offset : ℕ
  pub within : offset < n
  pub here : at index ((h + offset) % n) ≡ v
  pub no_gap : (i : ℕ) → i < offset → at index ((h + i) % n) ≢ 0

pub at-set :
    (index : List ℕ) (p w q : ℕ)
    → p < length index
    → at (set index p w) q ≡ (if p == q then w else at index q)
at-set index p w q hp = elim (Bool-cases (p == q)) [
  | inl e ↦ let eq : p ≡ q = ground arith in rw (e, ← eq) (get_or-set_self index p w 0 hp)
  | inr e ↦ rw e (get_or-set_ne index p q w 0 (ground arith))
]

-- A write of a mark other than "empty" makes no place empty.
pub set-ne-zero :
    (index : List ℕ) (p w q : ℕ)
    → p < length index
    → w ≢ 0
    → at index q ≢ 0
    → at (set index p w) q ≢ 0
set-ne-zero index p w q hp hw h = elim (Bool-cases (p == q)) [
  | inl e ↦ let eq : p ≡ q = ground arith in rw (← eq, get_or-set_self index p w 0 hp) hw
  | inr e ↦ rw (get_or-set_ne index p q w 0 (ground arith)) h
]

-- So it leaves the walks to other values whole.
pub set-Placed :
    (n : ℕ) (index : List ℕ) (h v p w : ℕ)
    → p < length index
    → w ≢ 0
    → at index p ≢ v
    → Placed n index h v
    → Placed n (set index p w) h v
set-Placed n index h v p w hp hw ne c = record {
  offset = c.offset;
  within = c.within;
  here =
      get_or-set_ne index p ((h + c.offset) % n) w 0 (λ e. ne (ap (at index) e ∙ c.here)) ∙ c.here;
  no_gap = λ i hi. set-ne-zero index p w ((h + i) % n) hp hw (c.no_gap i hi);
}

-- How many entries hold a slot.
abbrev pub is_slot : ℕ → ℕ
is_slot v = if leb 2 v then 1 else 0

pub filled : List ℕ → ℕ
filled [] = 0
filled (v ∷ vs) = is_slot v + filled vs

pub filled-set :
    (index : List ℕ) (p w : ℕ)
    → p < length index
    → filled (set index p w) + is_slot (at index p) ≡ filled index + is_slot w
unfolding filled
filled-set [] p w h = absurd (omega arith)
filled-set (v ∷ vs) zero w h = omega arith
filled-set (v ∷ vs) (suc p) w h = omega (arith, filled-set vs p w (omega arith))

pub filled_full :
    (index : List ℕ) → ((p : ℕ) → p < length index → 2 ≤ at index p) → filled index ≡ length index
unfolding filled
filled_full [] h = refl
filled_full (v ∷ vs) h =
    ground (arith, h 0 (omega arith), filled_full vs (λ p hp. h (suc p) (omega arith)))

pub filled-replicate : (n : ℕ) → filled (replicate n 0) ≡ 0
unfolding filled
filled-replicate zero = refl
filled-replicate (suc n) = omega (arith, filled-replicate n)

-- Every position is on the walk from `h`.
pub walk_covers : (n h p : ℕ) → h < n → p < n → (i : ℕ) × (i < n) × ((h + i) % n ≡ p)
walk_covers n h p hh hp = elim (Bool-cases (leb h p)) [
  | inl e ↦
      (p - h, ground arith, let back : h + (p - h) ≡ p = ground arith in rw back (mod-eq_of_lt hp))
  | inr e ↦ (p + n - h, ground arith, grind arith)
]

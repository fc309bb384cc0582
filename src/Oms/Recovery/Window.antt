-- ===== src/Oms/Recovery/Window.antt =====
-- The window of hashes takes no record for a repeated one where all hashes are different.
use market_microstructure_en.Base.{
  ℕ, zero, suc, ◌%◌, ◌≡◌, ◌≢◌, ◌⊎◌, inl, inr, refl, sym, ◌∙◌, arith, true, false, ◌==◌,
  if◌then◌else◌, List, [], ◌∷◌, ◌++◌, All, length, get_or, set, replicate, Bool-cases, both_true,
}
use market_microstructure_en.Base.Int.{ℤ, ◌==ℤ◌}
use market_microstructure_en.Exec.Journal.{JournalRecord}
use market_microstructure_en.Oms.Recovery.{same_payload}
use market_microstructure_en.Oms.Recovery.Recover.{repeats}
use market_microstructure_en.Oms.Recovery.Streaming.{
  DuplicateWindow, make_window, payload_hash, check_and_record,
}

abbrev NotHash : ℕ → JournalRecord → Type 0
NotHash h x = payload_hash x ≢ h

-- No record of the second list has the hash of one before it, or 0.
unfoldable pub Fresh : List JournalRecord → List JournalRecord → Type 0
Fresh before [] = Unit
Fresh before (r ∷ rs) =
    ((payload_hash r ≢ 0) × All (NotHash (payload_hash r)) before) × Fresh (before ++ (r ∷ [])) rs

-- The table holds no hash other than those of the records read, which are not 0, and 0.
abbrev pub Covered : DuplicateWindow → List JournalRecord → Type 0
Covered w before = (slot h : ℕ) → h ≢ 0 → All (NotHash h) before → get_or w.table slot 0 ≢ h

get_or-set_cases :
    (xs : List ℕ) (i v j : ℕ)
    → (get_or (set xs i v) j 0 ≡ v) ⊎ (get_or (set xs i v) j 0 ≡ get_or xs j 0)
get_or-set_cases [] i v j = inr refl
get_or-set_cases (x ∷ xs) zero v zero = inl refl
get_or-set_cases (x ∷ xs) zero v (suc j) = inr refl
get_or-set_cases (x ∷ xs) (suc i) v zero = inr refl
get_or-set_cases (x ∷ xs) (suc i) v (suc j) = get_or-set_cases xs i v j

replicate_same : (n j d : ℕ) → get_or (replicate n d) j d ≡ d
replicate_same zero j d = refl
replicate_same (suc n) zero d = refl
replicate_same (suc n) (suc j) d = replicate_same n j d

pub Covered-make_window : (window : ℕ) → Covered (make_window window) []
unfolding make_window
Covered-make_window window slot h nonzero a e = nonzero (sym e ∙ replicate_same _ slot 0)

stored : (h : ℕ) → h ≢ 0 → (if h == 0 then 1 else h) ≡ h
stored h full = ground arith

All-last :
    (h : ℕ) (before : List JournalRecord) (r : JournalRecord)
    → All (NotHash h) (before ++ (r ∷ []))
    → All (NotHash h) before × NotHash h r
All-last h [] r a = (tt, a.0)
All-last h (x ∷ xs) r a = let (rest, last) = All-last h xs r a.1 in ((a.0, rest), last)

pub Covered-check_and_record :
    (w : DuplicateWindow) (before : List JournalRecord) (r : JournalRecord)
    → payload_hash r ≢ 0
    → Covered w before
    → Covered (check_and_record w r).1 (before ++ (r ∷ []))
unfolding check_and_record
Covered-check_and_record w before r full covered slot h nonzero a =
    let (old, new) = All-last h before r a in
    elim (get_or-set_cases w.table (payload_hash r % length w.table)
      (if payload_hash r == 0 then 1 else payload_hash r) slot) [
        | inl e ↦ λ f. new (sym (stored (payload_hash r) full) ∙ sym e ∙ f)
        | inr e ↦ λ f. covered slot h nonzero old (sym e ∙ f)
      ]

pub unchecked :
    (w : DuplicateWindow) (before : List JournalRecord) (r : JournalRecord)
    → Covered w before
    → (payload_hash r ≢ 0) × All (NotHash (payload_hash r)) before
    → (check_and_record w r).0 ≡ false
unfolding check_and_record
unchecked w before r covered (nonzero, new) =
    let other = covered (payload_hash r % length w.table) (payload_hash r) nonzero new in
    ground arith

same_word : (a b : ℕ) → (a == b) ≡ true → a ≡ b
same_word a b h = ground arith

same_int : (a b : ℤ) → (a ==ℤ b) ≡ true → a ≡ b
same_int a b h = ground arith

same_payload-hash :
    (r x : JournalRecord) → same_payload r x ≡ true → payload_hash x ≡ payload_hash r
unfolding same_payload payload_hash
same_payload-hash r x h =
    let (h10, b10) = both_true _ _ h in
    let (h9, b9) = both_true _ _ h10 in
    let (h8, b8) = both_true _ _ h9 in
    let (h7, b7) = both_true _ _ h8 in
    let (h6, b6) = both_true _ _ h7 in
    let (h5, b5) = both_true _ _ h6 in
    let (h4, b4) = both_true _ _ h5 in
    let (h3, b3) = both_true _ _ h4 in
    let (h2, b2) = both_true _ _ h3 in
    let (b0, b1) = both_true _ _ h2 in
    rw
      (
        same_word r.ts_ns x.ts_ns b0,
        same_word r.type x.type b1,
        same_word r.reserved x.reserved b2,
        same_word r.symbol_id x.symbol_id b3,
        same_word r.run_id x.run_id b4,
        same_word r.logical_order_id x.logical_order_id b5,
        same_word r.position_ticket x.position_ticket b6,
        same_int r.a x.a b7,
        same_int r.b x.b b8,
        same_int r.c x.c b9,
        same_int r.d x.d b10,
      )
      refl

pub not_repeats :
    (before : List JournalRecord) (r : JournalRecord)
    → All (NotHash (payload_hash r)) before
    → repeats before r ≡ false
unfolding repeats
not_repeats [] r a = refl
not_repeats (x ∷ xs) r a = elim (Bool-cases (same_payload r x)) [
  | inl e ↦ absurd (a.0 (same_payload-hash r x e))
  | inr e ↦ rw e (not_repeats xs r a.1)
]

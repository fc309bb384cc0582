-- ===== src/Oms/Recovery/Repeated.antt =====
-- A journal with a repeated record is never recovered.
use market_microstructure_en.Base.{
  ℕ, ◌≡◌, ◌⊎◌, inl, inr, refl, sym, ap, arith, Bool, true, false, ◌||◌, leb, List, [], ◌∷◌, ◌++◌,
  length, none, Bool-cases, Option-cases, both_false,
}
use mathlib.Core.List.{append-nil, append_assoc}
use market_microstructure_en.Exec.Journal.{Journal, JournalRecord, append, max_journal_records}
use market_microstructure_en.Portfolio.{MarginMode}
use market_microstructure_en.Risk.Limits.{HaltReason}
use market_microstructure_en.Oms.Recovery.{same_payload, Progress}
use market_microstructure_en.Oms.Recovery.Recover.{
  repeats, bad_header, read_record, read_records, recover,
}

-- Some record has the payload of one before it.
unfoldable pub has_repeat : List JournalRecord → List JournalRecord → Bool
has_repeat before [] = false
has_repeat before (r ∷ rs) = repeats before r || has_repeat (before ++ (r ∷ [])) rs

or_true : (a b : Bool) → (a || b) ≡ true → (a ≡ true) ⊎ (b ≡ true)
or_true true b h = inl refl
or_true false b h = inr h

or_true_right : (a : Bool) → (a || true) ≡ true
or_true_right true = refl
or_true_right false = refl

read_records_repeat :
    (before rs : List JournalRecord) (p : Progress)
    → has_repeat before rs ≡ true
    → read_records before rs p ≡ none
unfolding read_records has_repeat
read_records_repeat before [] p h = absurd (grind arith)
read_records_repeat before (r ∷ rs) p h =
    elim (Bool-cases (bad_header (length before) p.last_ts r || repeats before r)) [
      | inl e ↦ rw e refl
      | inr e ↦
          let (_, fresh) = both_false _ _ e in
          let later : has_repeat (before ++ (r ∷ [])) rs ≡ true =
            rw (sym (ap (λ x. x || has_repeat (before ++ (r ∷ [])) rs) fresh)) h in
          elim (Option-cases (read_record (record p { last_ts = r.ts_ns }) r)) [
            | inl q ↦ rw e (rw q refl)
            | inr (p', q) ↦ rw e (rw q (read_records_repeat (before ++ (r ∷ [])) rs p' later))
          ]
    ]

-- What makes a journal unrecoverable, and that it holds the payload of a record.
abbrev pub Unrecoverable : Journal → Type 0
Unrecoverable j = (j.overflowed ≡ true) ⊎ (has_repeat [] j.records ≡ true)

abbrev pub Holds : Journal → JournalRecord → Type 0
Holds j r = (j.overflowed ≡ true) ⊎ (repeats j.records r ≡ true)

pub Unrecoverable-recover :
    (j : Journal) (mode : MarginMode) (kill : Bool) (halt : HaltReason)
    → Unrecoverable j
    → recover j mode kill halt ≡ none
unfolding recover
Unrecoverable-recover j mode kill halt (inl full) = rw full refl
Unrecoverable-recover j mode kill halt (inr h) = elim (Bool-cases j.overflowed) [
  | inl full ↦ rw full refl
  | inr room ↦ rw room (rw (read_records_repeat [] j.records _ h) refl)
]

has_repeat-snoc :
    (before rs : List JournalRecord) (x : JournalRecord)
    → has_repeat before (rs ++ (x ∷ [])) ≡ (has_repeat before rs || repeats (before ++ rs) x)
unfolding has_repeat
has_repeat-snoc before [] x = rw (append-nil before) (ground arith)
has_repeat-snoc before (r ∷ rs) x =
    rw (has_repeat-snoc (before ++ (r ∷ [])) rs x, append_assoc before (r ∷ []) rs) (ground arith)

repeats-snoc :
    (rs : List JournalRecord) (x r : JournalRecord)
    → repeats (rs ++ (x ∷ [])) r ≡ (repeats rs r || same_payload r x)
unfolding repeats
repeats-snoc [] x r = ground arith
repeats-snoc (y ∷ ys) x r = rw (repeats-snoc ys x r) (ground arith)

-- The sequence number is no part of the payload.
repeats-renumbered :
    (rs : List JournalRecord) (r : JournalRecord) (n : ℕ)
    → repeats rs (record r { seq = n }) ≡ repeats rs r
unfolding repeats same_payload
repeats-renumbered [] r n = refl
repeats-renumbered (x ∷ xs) r n = ap (λ b. same_payload r x || b) (repeats-renumbered xs r n)

same_payload_refl : (r : JournalRecord) (n : ℕ) → same_payload r (record r { seq = n }) ≡ true
unfolding same_payload
same_payload_refl r n = ground arith

-- The record that `append` stores, and the journal with it.
abbrev numbered : Journal → JournalRecord → JournalRecord
numbered j r = record r { seq = length j.records }

abbrev longer : Journal → JournalRecord → Journal
longer j r = record j { records = j.records ++ (numbered j r ∷ []) }

pub append-Unrecoverable :
    (j : Journal) (r : JournalRecord) → Unrecoverable j → Unrecoverable (append j r).1
unfolding append
append-Unrecoverable j r u = elim (Bool-cases (leb max_journal_records (length j.records))) [
  | inl full ↦ rw full (inl refl)
  | inr room ↦ rw room (elim u as (λ _. Unrecoverable (longer j r)) [
    | inl e ↦ inl e
    | inr e ↦ inr (rw (has_repeat-snoc [] j.records (numbered j r)) (rw e refl))
  ])
]

pub append-Holds : (j : Journal) (r x : JournalRecord) → Holds j x → Holds (append j r).1 x
unfolding append
append-Holds j r x u = elim (Bool-cases (leb max_journal_records (length j.records))) [
  | inl full ↦ rw full (inl refl)
  | inr room ↦ rw room (elim u as (λ _. Holds (longer j r) x) [
    | inl e ↦ inl e
    | inr e ↦ inr (rw (repeats-snoc j.records (numbered j r) x) (rw e refl))
  ])
]

pub append-Holds_self : (j : Journal) (r : JournalRecord) → Holds (append j r).1 r
unfolding append
append-Holds_self j r = elim (Bool-cases (leb max_journal_records (length j.records))) [
  | inl full ↦ rw full (inl refl)
  | inr room ↦ rw room (
      inr (
        rw (repeats-snoc j.records (numbered j r) r, same_payload_refl r (length j.records))
          (or_true_right (repeats j.records r))))
]

pub append-repeat : (j : Journal) (r : JournalRecord) → Holds j r → Unrecoverable (append j r).1
unfolding append
append-repeat j r u = elim (Bool-cases (leb max_journal_records (length j.records))) [
  | inl full ↦ rw full (inl refl)
  | inr room ↦ rw room (elim u as (λ _. Unrecoverable (longer j r)) [
    | inl e ↦ inl e
    | inr e ↦ inr (
        rw
          (
            has_repeat-snoc [] j.records (numbered j r),
            repeats-renumbered j.records r (length j.records),
            e,
          )
          (or_true_right (has_repeat [] j.records)))
  ])
]

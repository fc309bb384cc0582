-- ===== src/Exec/Journal/Dense.antt =====
-- The journal is dense, and its digest is the one of its records.
use market_microstructure_en.Base.{
  ℕ, suc, ◌+◌, ◌≤◌, ◌≡◌, ◌↔◌, refl, sym, ap, ◌∙◌, arith, true, ◌&&◌, ◌==◌, leb, List, [], ◌∷◌, ◌++◌,
  length, length-append, Bool-cases, both_true, inl, inr,
}
use market_microstructure_en.Base.Int.{eq_of_parts}
use market_microstructure_en.Exec.Types.{fnv_offset}
use market_microstructure_en.Exec.Journal.{
  JournalRecord, Journal, empty_journal, max_journal_records, mix_bytes, append, same_record,
  same_records, identical_to,
}

-- Records numbered from a sequence number on.
unfoldable pub Numbered : ℕ → List JournalRecord → Type 0
Numbered n [] = Unit
Numbered n (r ∷ rs) = (r.seq ≡ n) × Numbered (suc n) rs

-- The digest of records from a start value.
unfoldable pub digest_of : ℕ → List JournalRecord → ℕ
digest_of h [] = h
digest_of h (r ∷ rs) = digest_of (mix_bytes h r) rs

pub record JournalInv (j : Journal) : Type 0 where
  pub numbered : Numbered 0 j.records
  pub digested : j.digest ≡ digest_of fnv_offset j.records
  pub bounded : length j.records ≤ max_journal_records

Numbered-snoc :
    (n : ℕ) (rs : List JournalRecord) (r : JournalRecord)
    → Numbered n rs
    → r.seq ≡ n + length rs
    → Numbered n (rs ++ (r ∷ []))
unfolding Numbered
Numbered-snoc n [] r h e = (omega (arith, e), tt)
Numbered-snoc n (x ∷ xs) r h e = (h.0, Numbered-snoc (suc n) xs r h.1 (omega (arith, e)))

digest_of-snoc :
    (h : ℕ) (rs : List JournalRecord) (r : JournalRecord)
    → digest_of h (rs ++ (r ∷ [])) ≡ mix_bytes (digest_of h rs) r
unfolding digest_of
digest_of-snoc h [] r = refl
digest_of-snoc h (x ∷ xs) r = digest_of-snoc (mix_bytes h x) xs r

pub append-Inv : (j : Journal) (r : JournalRecord) → JournalInv j → JournalInv (append j r).1
unfolding append
append-Inv j r v = elim (Bool-cases (leb max_journal_records (length j.records))) [
  | inl e ↦ rw e (record { numbered = v.numbered; digested = v.digested; bounded = v.bounded })
  | inr e ↦
      let r' : JournalRecord = record r { seq = length j.records } in
      rw e (record {
        numbered = Numbered-snoc 0 j.records r' v.numbered (omega arith);
        digested =
            ap (λ h. mix_bytes h r') v.digested ∙ sym (digest_of-snoc fnv_offset j.records r');
        bounded = ground (arith, length-append j.records (r' ∷ []));
      })
]

pub empty-Inv : JournalInv empty_journal
unfolding Numbered digest_of
empty-Inv = record { numbered = tt; digested = refl; bounded = omega arith }

same_record-eq : (x y : JournalRecord) → same_record x y ≡ true → x ≡ y
unfolding same_record
same_record-eq x y h =
    ground
      (arith, eq_of_parts x.a y.a, eq_of_parts x.b y.b, eq_of_parts x.c y.c, eq_of_parts x.d y.d)

same_record_refl : (x : JournalRecord) → same_record x x ≡ true
unfolding same_record
same_record_refl x = ground arith

same_records-eq : (xs ys : List JournalRecord) → same_records xs ys ≡ true → xs ≡ ys
unfolding same_records
same_records-eq [] [] h = refl
same_records-eq [] (y ∷ ys) h = absurd (grind arith)
same_records-eq (x ∷ xs) [] h = absurd (grind arith)
same_records-eq (x ∷ xs) (y ∷ ys) h =
    let (head, tail) = both_true _ _ h in
    let e = same_record-eq x y head in let es = same_records-eq xs ys tail in cc

same_records_refl : (xs : List JournalRecord) → same_records xs xs ≡ true
unfolding same_records
same_records_refl [] = refl
same_records_refl (x ∷ xs) = rw (same_record_refl x) (same_records_refl xs)

-- Two journals are identical if and only if they hold the same records: the digest, which is compared
-- first, never tells equal journals apart.
pub identical_to_iff :
    (j k : Journal)
    → JournalInv j
    → JournalInv k
    → (identical_to j k ≡ true) ↔ (j.records ≡ k.records)
unfolding identical_to
identical_to_iff j k v w = (
  λ h.
      same_records-eq j.records k.records
        (both_true (length j.records == length k.records && j.digest == k.digest) _ h).1,
  λ e.
      let digests : j.digest ≡ k.digest =
        v.digested ∙ ap (digest_of fnv_offset) e ∙ sym w.digested in
      rw (e, digests, same_records_refl k.records) (ground arith),
)

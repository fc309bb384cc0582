-- ===== src/Oms/Recovery/Agree.antt =====
-- The streaming recovery agrees with the one from a whole journal.
use market_microstructure_en.Base.{
  ℕ, suc, ◌≤◌, ltb, ◌≡◌, refl, sym, ap, ◌∙◌, arith, Bool, false, ◌||◌, if◌then◌else◌, List, [], ◌∷◌,
  ◌++◌, map, length, length-append, Option, none, some, Bool-cases, both_false, Option-cases, inl,
  inr,
}
use mathlib.Core.Path.{subst}
use market_microstructure_en.Exec.Journal.{Journal, JournalRecord, max_journal_records}
use market_microstructure_en.Exec.Journal.Dense.{Numbered, JournalInv}
use market_microstructure_en.Portfolio.{MarginMode}
use market_microstructure_en.Risk.Limits.{HaltReason}
use market_microstructure_en.Oms.Recovery.{Progress, RecoveryState, fresh_state}
use market_microstructure_en.Oms.Recovery.Recover.{
  read_record, bad_header, read_records, conclude, recover,
}
use market_microstructure_en.Oms.Recovery.Window.{
  Covered, Fresh, Covered-make_window, Covered-check_and_record, unchecked, not_repeats,
}
use market_microstructure_en.Oms.Recovery.Streamed.{stream_record}
use market_microstructure_en.Oms.Recovery.Ported.{stream_record_lem}
use market_microstructure_en.Oms.Recovery.Concluded.{stream_conclude_lem}
use market_microstructure_en.Oms.Recovery.Streaming.{
  StreamItem, ok, DuplicateWindow, make_window, check_and_record, bad_streamed, stream_records,
  stream_conclude, recover_streaming,
}

bad_header_streamed :
    (last_ts : ℕ) (r : JournalRecord) → bad_header r.seq last_ts r ≡ bad_streamed last_ts r
unfolding bad_header bad_streamed
bad_header_streamed last_ts r = ground arith

-- A record that passes the checks of its header has one of the ten kinds.
kind_bounds :
    (last_ts : ℕ) (r : JournalRecord)
    → bad_streamed last_ts r ≡ false
    → (1 ≤ r.type) × (r.type ≤ 10)
unfolding bad_streamed
kind_bounds last_ts r h =
    let (h1, high) = both_false _ (ltb 10 r.type) h in
    let (_, low) = both_false _ (ltb r.type 1) h1 in (ground arith, ground arith)

-- A round of the stream's loop for a record that has its number.
abbrev streamed : DuplicateWindow → ℕ → JournalRecord → List StreamItem → Progress → Option Progress
streamed w i r items p =
    if bad_streamed p.last_ts r || (check_and_record w r).0
    then none
    else elim (stream_record (record p { last_ts = r.ts_ns }) r) [
      | none ↦ none
      | some p' ↦ stream_records (check_and_record w r).1 (suc i) items p'
    ]

stream_records_step :
    (w : DuplicateWindow) (i : ℕ) (r : JournalRecord) (items : List StreamItem) (p : Progress)
    → i ≡ r.seq
    → stream_records w i (ok r ∷ items) p ≡ streamed w i r items p
unfolding stream_records
stream_records_step w i r items p e = rw e refl

stream_records_agree :
    (w : DuplicateWindow) (before rs : List JournalRecord) (p : Progress)
    → Numbered (length before) rs
    → Covered w before
    → Fresh before rs
    → stream_records w (length before) (map ok rs) p ≡ read_records before rs p
unfolding stream_records read_records Numbered Fresh
stream_records_agree w before [] p numbered covered fresh = refl
stream_records_agree w before (r ∷ rs) p numbered covered fresh =
    let w' = (check_and_record w r).1 in
    let longer = before ++ (r ∷ []) in
    let new = unchecked w before r covered fresh.0 in
    let unrepeated = not_repeats before r fresh.0.1 in
    let headers : bad_header (length before) p.last_ts r ≡ bad_streamed p.last_ts r =
      rw (sym numbered.0) (bad_header_streamed p.last_ts r) in
    let next : length longer ≡ suc (length before) = omega (arith, length-append before (r ∷ [])) in
    let rest : (p' : Progress)
        → stream_records w' (suc (length before)) (map ok rs) p' ≡ read_records longer rs p' =
      λ p'.
        ap (λ n. stream_records w' n (map ok rs) p') (sym next)
        ∙ stream_records_agree w' longer rs p' (subst (λ n. Numbered n rs) (sym next) numbered.1)
            (Covered-check_and_record w before r fresh.0.0 covered) fresh.1 in
    stream_records_step w (length before) r (map ok rs) p (sym numbered.0)
    ∙ elim (Bool-cases (bad_streamed p.last_ts r)) [
      | inl e ↦ rw (headers, e) refl
      | inr e ↦
          let (low, high) = kind_bounds p.last_ts r e in
          let same = stream_record_lem (record p { last_ts = r.ts_ns }) r low high in
          elim (Option-cases (read_record (record p { last_ts = r.ts_ns }) r)) [
            | inl q ↦ rw (headers, e, new, unrepeated) (rw (same ∙ q, q) refl)
            | inr (p', q) ↦ rw (headers, e, new, unrepeated) (rw (same ∙ q, q) (rest p'))
          ]
    ]

concluded :
    (o : Option Progress) (kill : Bool) (halt : HaltReason)
    → elim o as (λ _. Option RecoveryState) [ none ↦ none | some p ↦ stream_conclude p kill halt ]
      ≡ elim o as (λ _. Option RecoveryState) [ none ↦ none | some p ↦ conclude p kill halt ]
concluded none kill halt = refl
concluded (some p) kill halt = stream_conclude_lem p kill halt

-- What both loops start from.
abbrev started : MarginMode → Progress
started mode = record {
  state = fresh_state mode;
  last_ts = 0;
  have_account = false;
  have_pnl = false;
}

-- Where the payloads of the records have different hashes and none hashes to 0, the recovery from the stream
-- of the records of a journal that did not overflow, whatever the size of the window, for a store of the
-- same capacity, gives what the recovery from the journal gives.
pub recover_streaming_agree :
    (j : Journal) (mode : MarginMode) (window : ℕ) (kill : Bool) (halt : HaltReason)
    → JournalInv j
    → j.overflowed ≡ false
    → Fresh [] j.records
    → recover_streaming (map ok j.records) mode max_journal_records window kill halt
      ≡ recover j mode kill halt
unfolding recover_streaming recover fresh_state
recover_streaming_agree j mode window kill halt v room fresh =
    let same =
      stream_records_agree (make_window window) [] j.records (started mode) v.numbered
        (Covered-make_window window) fresh in
    rw (recover, room)
      (rw (recover_streaming, same)
        (concluded (read_records [] j.records (started mode)) kill halt))

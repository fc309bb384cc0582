-- ===== src/Oms/Recovery/Tests.antt =====
-- A journal of one order that is read in full.
use market_microstructure_en.Base.{ℕ, arith, ◌≡◌, refl, true, false, List, [], ◌∷◌, map, is_some}
use market_microstructure_en.Base.Int.{ℤ, pos, neg, ◌+ℤ◌, ◌-ℤ◌}
use market_microstructure_en.Exec.Journal.{
  Journal, JournalRecord, empty_journal, append, max_journal_records,
}
use market_microstructure_en.Exec.Journal.Dense.{JournalInv, append-Inv, empty-Inv}
use market_microstructure_en.Risk.Limits.{no_halt}
use market_microstructure_en.Oms.Recovery.Streaming.{ok, payload_hash, recover_streaming}
use market_microstructure_en.Oms.Recovery.Agree.{recover_streaming_agree}
use market_microstructure_en.Oms.Recovery.Window.{Fresh}
use market_microstructure_en.Portfolio.{hedging}
use market_microstructure_en.Oms.Index.{
  index_probe_find, probe_from, next_pow2, next_pow2_loop, mask, home_of, mix_ref, ref_at,
  index_insert, insert_from,
}
use market_microstructure_en.Oms.Oms.{
  find, find_slot, probe_find, slot_at, make, restore, bad_volumes, append_order, order_at,
  transition, change_state, mark_state, reclaim_if, write,
}
use market_microstructure_en.Oms.OrderState.{legal}
use market_microstructure_en.Exec.Types.{ref_eq, remaining}
use market_microstructure_en.Oms.Recovery.{
  read_order_state, same_payload, read_command, bad_command, read_acknowledgement, Progress,
  fresh_state,
}
use market_microstructure_en.Oms.Recovery.Recover.{
  recover, read_records, bad_header, read_record, repeats,
}

abbrev record_of : ℕ → ℕ → ℤ → ℤ → ℤ → ℤ → JournalRecord
record_of seq type a b c d = record {
  seq = seq;
  ts_ns = 5;
  type = type;
  reserved = 0;
  symbol_id = 2;
  run_id = 1;
  logical_order_id = 9;
  position_ticket = 0;
  a = a;
  b = b;
  c = c;
  d = d;
}

-- Sent, its command, acknowledged.
abbrev records : List JournalRecord
records =
    record_of 0 7 (pos 2) (pos 3) (pos 0) (pos 4)
    ∷ record_of 1 1 (pos 0) (pos 4) (pos 100) (pos 1)
    ∷ record_of 2 7 (pos 3) (pos 4) (pos 0) (pos 4)
    ∷ record_of 3 2 (pos 5) (pos 0) (pos 0) (pos 0)
    ∷ []

abbrev start : Progress
start = record {
  state = record (fresh_state hedging) { orders = make 4 };
  last_ts = 0;
  have_account = false;
  have_pnl = false;
}

is_read : is_some (read_records [] records start) ≡ true
unfolding index_probe_find probe_from next_pow2 next_pow2_loop mask home_of mix_ref ref_at
    index_insert insert_from find find_slot probe_find slot_at make restore bad_volumes append_order
    order_at transition change_state mark_state reclaim_if write legal ref_eq remaining neg ◌+ℤ◌
    ◌-ℤ◌ read_order_state same_payload read_command bad_command read_acknowledgement read_records
    bad_header read_record repeats
is_read = refl

-- A journal that starts with a rejection without an order and holds these records, and its stream.
abbrev stray : JournalRecord
stray = record (record_of 0 3 (pos 5) (pos 0) (pos 0) (pos 0)) { logical_order_id = 0 }

abbrev journal : Journal
journal =
    let j1 = (append empty_journal stray).1 in
    let j2 = (append j1 (record_of 0 7 (pos 2) (pos 3) (pos 0) (pos 4))).1 in
    let j3 = (append j2 (record_of 1 1 (pos 0) (pos 4) (pos 100) (pos 1))).1 in
    (append j3 (record_of 2 7 (pos 3) (pos 4) (pos 0) (pos 4))).1

journal-Inv : JournalInv journal
journal-Inv =
    append-Inv _ _ (append-Inv _ _ (append-Inv _ _ (append-Inv empty_journal stray empty-Inv)))

has_room : journal.overflowed ≡ false
unfolding append
has_room = refl

is_Fresh : Fresh [] journal.records
unfolding Fresh append payload_hash
is_Fresh = (
  (omega arith, tt),
  (
    (omega arith, (omega arith, tt)),
    (
      (omega arith, (omega arith, (omega arith, tt))),
      ((omega arith, (omega arith, (omega arith, (omega arith, tt)))), tt),
    ),
  ),
)

recover_streaming_agree_example :
    recover_streaming (map ok journal.records) hedging max_journal_records 16 false no_halt
    ≡ recover journal hedging false no_halt
recover_streaming_agree_example =
    recover_streaming_agree journal hedging 16 false no_halt journal-Inv has_room is_Fresh

-- ===== src/Exec/Tests.antt =====
-- The theorems on the position book, the generator and the journal at concrete values.
use market_microstructure_en.Base.{
  true, ◌≡◌, ◌↔◌, ◌≤◌, ◌==◌, ℕ, refl, arith, if◌then◌else◌, [], ◌∷◌, length, set, none, some,
}
use market_microstructure_en.Base.Int.{pos, ◌+ℤ◌, ◌≤ℤ◌}
use market_microstructure_en.Exec.Types.{buy, sell, closed}
use market_microstructure_en.Exec.Account.{
  PositionBook, max_positions, opened, closed_slot, place, open_ticket, open_count, find_ticket,
  find_position, net_volume,
}
use market_microstructure_en.Exec.Account.Positions.{
  net_added, open_ticket_refused, open_ticket_lem,
}
use market_microstructure_en.Exec.Journal.{
  Journal, JournalRecord, command, type_code, empty_journal, append, identical_to,
}
use market_microstructure_en.Exec.Journal.Dense.{
  JournalInv, append-Inv, empty-Inv, identical_to_iff,
}
use market_microstructure_en.Exec.Models.{optimistic, base, pessimistic, sample_ticks, sample_ns}
use market_microstructure_en.Exec.Models.Ordered.{modes_ordered}

-- A closed position between two open ones.
abbrev three : PositionBook
three = record {
  positions =
      opened 1 7 buy (pos 5) (pos 100) 10
      ∷ record (opened 2 7 sell (pos 3) (pos 101) 11) { state = closed }
      ∷ opened 3 8 sell (pos 2) (pos 50) 12
      ∷ [];
}

abbrev reused : PositionBook
reused = record { positions = set three.positions 1 (opened 4 7 sell (pos 2) (pos 99) 13) }

four_new : find_position three 4 ≡ none
unfolding find_position find_ticket
four_new = refl

four_made : open_ticket three 4 7 sell (pos 2) (pos 99) 13 ≡ some (1, reused)
unfolding open_ticket place closed_slot
four_made = refl

open_ticket_refused_example :
    (open_ticket three 4 7 sell (pos 2) (pos 99) 13 ≡ none) ↔ (open_count three ≡ max_positions)
open_ticket_refused_example = open_ticket_refused three 4 7 sell (pos 2) (pos 99) 13 (omega arith)

open_ticket_lem_example :
    (length reused.positions ≤ max_positions)
    × ((t : ℕ) → find_position reused t ≡ (if 4 == t then some 1 else find_position three t))
    × ((s : ℕ) → net_volume reused s ≡ net_volume three s +ℤ net_added s 7 sell (pos 2))
open_ticket_lem_example =
    open_ticket_lem three reused 4 7 sell (pos 2) (pos 99) 13 1 (omega arith) four_new four_made

-- Two journals that got the same record.
abbrev noted : JournalRecord
noted = record {
  seq = 0;
  ts_ns = 5;
  type = type_code command;
  reserved = 0;
  symbol_id = 7;
  run_id = 1;
  logical_order_id = 9;
  position_ticket = 0;
  a = pos 0;
  b = pos 10;
  c = pos 100;
  d = pos 1;
}

abbrev one_note : Journal
one_note = (append empty_journal noted).1

one_note-Inv : JournalInv one_note
one_note-Inv = append-Inv empty_journal noted empty-Inv

identical_to_iff_example :
    (identical_to one_note empty_journal ≡ true) ↔ (one_note.records ≡ empty_journal.records)
identical_to_iff_example = identical_to_iff one_note empty_journal one_note-Inv empty-Inv

modes_ordered_example :
    ((sample_ticks 42 7 optimistic (pos 3) ≤ℤ sample_ticks 42 7 base (pos 3))
      × (sample_ticks 42 7 base (pos 3) ≤ℤ sample_ticks 42 7 pessimistic (pos 3)))
    × ((sample_ns 42 7 optimistic (pos 3) ≤ sample_ns 42 7 base (pos 3))
        × (sample_ns 42 7 base (pos 3) ≤ sample_ns 42 7 pessimistic (pos 3)))
modes_ordered_example = modes_ordered 42 7 (pos 3) (omega arith)

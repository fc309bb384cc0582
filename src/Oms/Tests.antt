-- ===== src/Oms/Tests.antt =====
-- The theorems on the order store and the report sequencer at concrete stores and reports.
use market_microstructure_en.Oms.Session.{SessionConstraints, default_constraints}
use market_microstructure_en.Oms.Reconciler.{ReconcileView, reconciled, Agrees, reconciled_iff}
use market_microstructure_en.Base.{◌↔◌}
use market_microstructure_en.Base.{
  ◌+◌, ◌≡◌, ◌⊎◌, ◌<◌, refl, arith, true, false, List, [], ◌∷◌, none, some, if◌then◌else◌, length,
  replicate,
}
use market_microstructure_en.Base.Int.{pos, ◌+ℤ◌, ◌-ℤ◌}
use market_microstructure_en.Exec.Types.{
  BrokerOrderRef, Order, ref_eq, pending_send, sent, acknowledged, remaining, is_terminal,
}
use market_microstructure_en.Oms.OrderState.{legal}
use market_microstructure_en.Oms.Index.Mask.{pow2}
use market_microstructure_en.Oms.Index.Indexed.{Indexed}
use market_microstructure_en.Oms.Index.Rehash.{Distinct, rehash-Indexed}
use market_microstructure_en.Oms.Index.{
  reinsert_from, next_pow2, next_pow2_loop, mix_ref, mask, home_of, ref_at, probe_from,
  index_probe_find, insert_from, index_insert,
}
use market_microstructure_en.Oms.Oms.{
  Oms, make, find, create, transition, fill, size, order_at, add_fill, bad_fill, find_slot, slot_at,
  probe_find, append_order, change_state, mark_state, write, reclaim_if,
}
use market_microstructure_en.Oms.Oms.Inv.{Inv, lookup, find-lookup, make-Inv, total_reserved}
use market_microstructure_en.Oms.Oms.Steps.{
  Call, creates, transitions, fills, run, run-Inv, created, create-Inv, transition-Inv,
}
use market_microstructure_en.Oms.Oms.Refine.{in_state, find-create, find-transition}
use market_microstructure_en.Oms.Oms.Fills.{find-fill, fill_refused_books, filled_state, with_fill}
use market_microstructure_en.Oms.Oms.Balance.{reserved-run}
use market_microstructure_en.Oms.Report.{ExecReport, ack, duplicate, terminal_late, applied}
use market_microstructure_en.Oms.Report.Pool.{make_pool-Inv}
use market_microstructure_en.Oms.Report.Cache.{make_cache-Inv}
use market_microstructure_en.Oms.Sequencer.{
  System, make_sequencer, process, drain_loop, process_live, apply_next, apply_one, apply_kind,
}
use market_microstructure_en.Oms.Sequencer.Behind.{SystemInv}
use market_microstructure_en.Oms.Sequencer.Drain.{drain-ends}
use market_microstructure_en.Oms.Sequencer.Once.{process-Inv, process_again}

abbrev ref1 : BrokerOrderRef
ref1 = record { run_id = 1; logical_order_id = 7 }

abbrev ref2 : BrokerOrderRef
ref2 = record { run_id = 1; logical_order_id = 8 }

abbrev order1 : Order
order1 = created ref1 3 (pos 10)

abbrev store1 : Oms
store1 = (create (make 4) ref1 3 (pos 10)).1

store0-Inv : Inv (make 4)
store0-Inv = make-Inv 4 (omega arith)

store1-Inv : Inv store1
store1-Inv = create-Inv (make 4) ref1 3 (pos 10) store0-Inv

empty_missing : (ref : BrokerOrderRef) → find (make 4) ref ≡ none
unfolding make lookup
empty_missing ref = find-lookup (make 4) ref store0-Inv

empty_room : size (make 4) < (make 4).capacity
unfolding make size
empty_room = omega arith

store1_finds : find store1 ref1 ≡ some order1
unfolding ref_eq
store1_finds =
    (find-create (make 4) ref1 3 (pos 10) store0-Inv (empty_missing ref1) empty_room).1 ref1

find-lookup_example : find store1 ref1 ≡ lookup ref1 store1.orders
find-lookup_example = find-lookup store1 ref1 store1-Inv

run-Inv_example :
    Inv (run (make 4) (creates ref1 3 (pos 10) ∷ transitions ref1 sent ∷ fills ref1 (pos 4) ∷ []))
run-Inv_example =
    run-Inv (make 4) (creates ref1 3 (pos 10) ∷ transitions ref1 sent ∷ fills ref1 (pos 4) ∷ [])
      store0-Inv

find-create_example :
    ((create (make 4) ref1 3 (pos 10)).0 ≡ true)
    × ((r : BrokerOrderRef)
        → find store1 r ≡ (if ref_eq ref1 r then some order1 else find (make 4) r))
find-create_example =
    find-create (make 4) ref1 3 (pos 10) store0-Inv (empty_missing ref1) empty_room

pending_sent : legal pending_send sent ≡ true
unfolding legal
pending_sent = refl

find-transition_example :
    ((transition store1 ref1 sent).0 ≡ true)
    × ((r : BrokerOrderRef)
        → find (transition store1 ref1 sent).1 r ≡ (
            if ref_eq ref1 r
            then (if is_terminal sent then none else some (in_state order1 sent))
            else find store1 r))
find-transition_example =
    find-transition store1 ref1 sent order1 store1-Inv store1_finds pending_sent

-- The store with the order sent and acknowledged.
abbrev store2 : Oms
store2 = (transition (transition store1 ref1 sent).1 ref1 acknowledged).1

abbrev order2 : Order
order2 = in_state order1 acknowledged

store2-Inv : Inv store2
store2-Inv =
    transition-Inv (transition store1 ref1 sent).1 ref1 acknowledged
      (transition-Inv store1 ref1 sent store1-Inv)

sent_acknowledged : legal sent acknowledged ≡ true
unfolding legal
sent_acknowledged = refl

sent_finds : find (transition store1 ref1 sent).1 ref1 ≡ some (in_state order1 sent)
unfolding ref_eq
sent_finds = find-transition_lem.1 ref1
  where
    find-transition_lem :
        ((transition store1 ref1 sent).0 ≡ true)
        × ((r : BrokerOrderRef)
            → find (transition store1 ref1 sent).1 r
              ≡ (if ref_eq ref1 r then some (in_state order1 sent) else find store1 r))
    find-transition_lem =
        find-transition store1 ref1 sent order1 store1-Inv store1_finds pending_sent

store2_finds : find store2 ref1 ≡ some order2
unfolding ref_eq
store2_finds =
    (find-transition (transition store1 ref1 sent).1 ref1 acknowledged (in_state order1 sent)
        (transition-Inv store1 ref1 sent store1-Inv) sent_finds sent_acknowledged).1
      ref1

fits : bad_fill order2 (pos 4) ≡ false
unfolding bad_fill remaining ◌-ℤ◌
fits = refl

fills_legal : legal order2.state (filled_state order2 (pos 4)) ≡ true
unfolding legal add_fill remaining ◌-ℤ◌ ◌+ℤ◌
fills_legal = refl

find-fill_example :
    ((fill store2 ref1 (pos 4)).0 ≡ true)
    × ((r : BrokerOrderRef)
        → find (fill store2 ref1 (pos 4)).1 r ≡ (
            if ref_eq ref1 r
            then (if is_terminal (filled_state order2 (pos 4))
                then none
                else some (in_state (with_fill order2 (pos 4)) (filled_state order2 (pos 4))))
            else find store2 r))
find-fill_example = find-fill store2 ref1 (pos 4) order2 store2-Inv store2_finds fits fills_legal

early_fits : bad_fill order1 (pos 4) ≡ false
unfolding bad_fill remaining ◌-ℤ◌
early_fits = refl

early_illegal : legal order1.state (filled_state order1 (pos 4)) ≡ false
unfolding legal add_fill remaining ◌-ℤ◌ ◌+ℤ◌
early_illegal = refl

fill_refused_books_example :
    ((fill store1 ref1 (pos 4)).0 ≡ false)
    × (find (fill store1 ref1 (pos 4)).1 ref1 ≡ some (with_fill order1 (pos 4)))
fill_refused_books_example =
    fill_refused_books store1 ref1 (pos 4) order1 store1-Inv store1_finds early_fits early_illegal

abbrev calls : List Call
calls = creates ref1 3 (pos 10) ∷ creates ref2 3 (pos 5) ∷ transitions ref1 sent ∷ []

reserved-run_example : (run (make 4) calls).reserved ≡ total_reserved (run (make 4) calls).orders
reserved-run_example = reserved-run 4 calls (omega arith) (tt, (tt, (tt, tt)))

position_inside : 3 < (make 4).index_capacity
unfolding make next_pow2 next_pow2_loop
position_inside = omega arith

abbrev system : System
system = record { sequencer = make_sequencer 2 2; oms = (transition store1 ref1 sent).1 }

system-Inv : SystemInv system
unfolding make_sequencer
system-Inv = record {
  oms = transition-Inv store1 ref1 sent store1-Inv;
  pool = make_pool-Inv 2;
  cache = make_cache-Inv 2 (omega arith);
}

abbrev report1 : ExecReport
report1 = record { ref = ref1; venue_seq = 1; kind = ack; volume = pos 0; price = pos 0 }

process-Inv_example : SystemInv (process system report1).1
process-Inv_example = process-Inv system report1 system-Inv (omega arith)

report1_applied : (process system report1).0 ≡ applied
unfolding process process_live apply_next apply_one apply_kind transition find find_slot order_at
    slot_at probe_find index_probe_find probe_from home_of mix_ref mask ref_at create make next_pow2
    next_pow2_loop append_order index_insert insert_from change_state mark_state write reclaim_if
    legal ref_eq make_sequencer
report1_applied = refl

process_again_example :
    (process (process system report1).1 report1 ≡ (duplicate, (process system report1).1))
    ⊎ (process (process system report1).1 report1 ≡ (terminal_late, (process system report1).1))
process_again_example = process_again system report1 system-Inv (omega arith) report1_applied

drain-ends_example :
    drain_loop (system.sequencer.gap_pool.held_count + 1 + 5) system ref1
    ≡ drain_loop (system.sequencer.gap_pool.held_count + 1) system ref1
drain-ends_example = drain-ends system ref1 5 system-Inv

one_Distinct : Distinct (order1 ∷ [])
one_Distinct s t h k q = omega arith

rehash-Indexed_example :
    Indexed 2 (order1 ∷ []) (reinsert_from (replicate (pow2 2) 0) 0 (pow2 2) (order1 ∷ []) 0).0
rehash-Indexed_example = rehash-Indexed 2 (order1 ∷ []) two one_Distinct
  where
    two : length (order1 ∷ []) < pow2 2
    two = omega arith

-- Two views whose balances differ by three.
abbrev views : ReconcileView
views = record {
  engine_orders = 2;
  broker_orders = 2;
  engine_positions = 1;
  broker_positions = 1;
  engine_balance = pos 1003;
  broker_balance = pos 1000;
  engine_equity = pos 1000;
  broker_equity = pos 1000;
  engine_margin = pos 40;
  broker_margin = pos 40;
  order_state_mismatch = false;
  filled_quantity_mismatch = false;
  position_quantity_mismatch = false;
  position_ticket_mismatch = false;
  has_orphan_order = false;
  has_orphan_position = false;
  margin_mode_mismatch = false;
  has_unresolved_unknown = false;
  has_orphan = false;
}

reconciled_iff_example : (reconciled views (pos 5) ≡ true) ↔ Agrees views (pos 5)
reconciled_iff_example = reconciled_iff views (pos 5)

abbrev halted_session : SessionConstraints
halted_session = record default_constraints {
  trading_halted = true;
  allow_risk_reducing_during_halt = false;
}

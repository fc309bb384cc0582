-- ===== src/Oms/Recovery/Streaming.antt =====
-- include/oms/recovery_streaming.hpp: the recovery from a stream of records, with a window of hashes in place
-- of the search for a repeated payload.
use Prim.Native.Nat.{bit_xor}
use market_microstructure_en.Base.{
  ℕ, zero, suc, ◌+◌, ◌%◌, Bool, false, ◌&&◌, ◌||◌, not, ◌==◌, ltb, leb, if◌then◌else◌, List, [],
  ◌∷◌, length, get_or, set, replicate, Option, none, some,
}
use market_microstructure_en.Base.Words.{mul64, to_u64}
use market_microstructure_en.Exec.Types.{fnv_offset, is_terminal, is_unknown}
use market_microstructure_en.Exec.Journal.{JournalRecord}
use market_microstructure_en.Exec.Broker.State.{max_symbols}
use market_microstructure_en.Portfolio.{MarginMode}
use market_microstructure_en.Risk.Limits.{HaltReason, manual_kill}
use market_microstructure_en.Oms.Index.{next_pow2}
use market_microstructure_en.Oms.Oms.{Oms, make, order_at, mark_unknown_on_restart}
use market_microstructure_en.Exec.Account.{Position, is_closed}
use market_microstructure_en.Oms.Recovery.Recover.{is_no_halt}
use market_microstructure_en.Oms.Recovery.{RecoveryState, fresh_state, Progress}
use market_microstructure_en.Oms.Recovery.Streamed.{stream_record}

-- What a call of the source yields; the end of the list is `done`.
pub data StreamItem : Type 0 where
  ok : JournalRecord → StreamItem
  corrupt : StreamItem

-- `capacity_` is the length of `table`.
pub record DuplicateWindow : Type 0 where
  pub table : List ℕ

unfoldable pub make_window : ℕ → DuplicateWindow
make_window window = record { table = replicate (next_pow2 (if window == 0 then 1 else window)) 0 }

abbrev pub mix_word : ℕ → ℕ → ℕ
mix_word h v = mul64 (bit_xor h v) 1099511628211

-- `hash`: all members but the sequence number.
unfoldable pub payload_hash : JournalRecord → ℕ
payload_hash r =
    let h1 = mix_word (mix_word (mix_word fnv_offset r.ts_ns) r.type) r.reserved in
    let h2 =
      mix_word (mix_word (mix_word (mix_word h1 r.symbol_id) r.run_id) r.logical_order_id)
        r.position_ticket in
    mix_word (mix_word (mix_word (mix_word h2 (to_u64 r.a)) (to_u64 r.b)) (to_u64 r.c)) (to_u64 r.d)

unfoldable pub check_and_record : DuplicateWindow → JournalRecord → Bool × DuplicateWindow
unfolding payload_hash
check_and_record w r =
    let h = payload_hash r in
    let slot = h % length w.table in
    (
      get_or w.table slot 0 == h && not (h == 0),
      record { table = set w.table slot (if h == 0 then 1 else h) },
    )

unfoldable pub bad_streamed : ℕ → JournalRecord → Bool
bad_streamed last_ts r =
    not (r.reserved == 0)
    || ltb r.ts_ns last_ts
    || leb max_symbols r.symbol_id
    || ltb r.type 1
    || ltb 10 r.type

unfoldable pub stream_records : DuplicateWindow → ℕ → List StreamItem → Progress → Option Progress
unfolding check_and_record bad_streamed stream_record
stream_records w i [] p = some p
stream_records w i (corrupt ∷ items) p = none
stream_records w i (ok r ∷ items) p =
    let r' = record r { seq = i } in
    let (duplicate, w') = check_and_record w r' in
    if bad_streamed p.last_ts r' || duplicate
    then none
    else elim (stream_record (record p { last_ts = r'.ts_ns }) r') [
      | none ↦ none
      | some p' ↦ stream_records w' (suc i) items p'
    ]

-- One round of the loop over the orders after the last record.
unfoldable pub stream_mark_one : Oms → ℕ → Option Oms
stream_mark_one orders i =
    let o = order_at orders i in
    let (marked, orders') = mark_unknown_on_restart orders o.ref in
    if not (is_terminal o.state) && not (is_unknown o.state)
    then if not marked then none else some orders'
    else some orders

unfoldable pub stream_mark : Oms → ℕ → ℕ → Option Oms
unfolding stream_mark_one
stream_mark orders k zero = some orders
stream_mark orders k (suc left) = elim (stream_mark_one orders k) [
  | none ↦ none
  | some orders' ↦ stream_mark orders' (suc k) left
]

-- The loop that counts the open positions, from a count on.
unfoldable pub stream_open : ℕ → List Position → ℕ
stream_open count [] = count
stream_open count (p ∷ ps) = stream_open (if not (is_closed p.state) then count + 1 else count) ps

-- `recover_streaming` after its loop.
unfoldable pub stream_conclude : Progress → Bool → HaltReason → Option RecoveryState
unfolding stream_mark stream_open
stream_conclude p kill_present persisted_halt =
    if (if p.have_account then not p.have_pnl else p.have_pnl)
    then none
    else elim (stream_mark p.state.orders 0 (length p.state.orders.orders)) [
      | none ↦ none
      | some orders ↦ some (record p.state {
        orders = orders;
        account = record p.state.account {
          open_orders = length p.state.orders.orders;
          open_positions = stream_open 0 p.state.positions.positions;
        };
        kill = kill_present;
        halt =
            if kill_present
            then if is_no_halt persisted_halt then manual_kill else persisted_halt
            else persisted_halt;
      })
    ]

unfoldable pub recover_streaming :
    List StreamItem → MarginMode → ℕ → ℕ → Bool → HaltReason → Option RecoveryState
unfolding stream_records make_window stream_conclude
recover_streaming items mode capacity window kill_present persisted_halt =
    elim (stream_records (make_window window) 0 items (record {
      state = record (fresh_state mode) { orders = make capacity };
      last_ts = 0;
      have_account = false;
      have_pnl = false;
    })) [ none ↦ none | some p ↦ stream_conclude p kill_present persisted_halt ]

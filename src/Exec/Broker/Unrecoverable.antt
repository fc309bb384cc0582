-- ===== src/Exec/Broker/Unrecoverable.antt =====
-- The journal of the broker against the recovery of the order management system.
use market_microstructure_en.Base.{
  ℕ, ◌≡◌, inl, inr, refl, sym, ap, ◌∙◌, Bool, true, false, ◌&&◌, not, List, [], ◌∷◌, none,
  Bool-cases,
}
use mathlib.Core.Path.{subst}
use market_microstructure_en.Base.Int.{ℤ, pos, leb_ℤ}
use market_microstructure_en.Exec.Types.{RejectReason, insufficient_margin, remaining, filled}
use market_microstructure_en.Exec.Account.{Position, stop_out}
use market_microstructure_en.Exec.Journal.{
  Journal, JournalRecord, account_update, pnl_update, type_code, append, emit,
}
use market_microstructure_en.Exec.Broker.State.{
  PaperBroker, AccountState, record_event, halt, marked, sum_positions, revalued, recompute_account,
  refresh_account, reason_code, finish, transition, write_order, close_order, release_reservation,
}
use market_microstructure_en.Exec.Broker.Fills.{apply_fill, book_fill, conclude_fill}
use market_microstructure_en.Exec.Broker.State.{order_at}
use market_microstructure_en.Portfolio.{MarginMode}
use market_microstructure_en.Risk.Limits.{HaltReason}
use market_microstructure_en.Oms.Recovery.Recover.{recover}
use market_microstructure_en.Oms.Recovery.Repeated.{
  Unrecoverable, Holds, Unrecoverable-recover, append-Unrecoverable, append-Holds,
  append-Holds_self, append-repeat,
}

-- A broker with another account, journal and halt.
abbrev changed : PaperBroker → AccountState → Journal → Bool → RejectReason → PaperBroker
changed b account journal halted why = record b {
  account = account;
  journal = journal;
  is_halted = halted;
  halt_reason = why;
}

sum_positions-changed :
    (b : PaperBroker) (a : AccountState) (j : Journal) (h : Bool) (w : RejectReason)
    (ps : List Position) (unrealized margin : ℤ)
    → sum_positions (changed b a j h w) ps unrealized margin ≡ sum_positions b ps unrealized margin
unfolding sum_positions marked
sum_positions-changed b a j h w [] unrealized margin = refl
sum_positions-changed b a j h w (p ∷ ps) unrealized margin = sum_positions-changed b a j h w ps _ _

-- The account that a revaluation gives, with a flag for the stop-out.
abbrev flagged : PaperBroker → Bool → AccountState
flagged b stopped = record (revalued b) { stopped_out = stopped }

-- A second revaluation finds the account as the first left it.
revalued-changed :
    (b : PaperBroker) (stopped : Bool) (j : Journal) (h : Bool) (w : RejectReason)
    → revalued (changed b (flagged b stopped) j h w) ≡ flagged b stopped
unfolding revalued
revalued-changed b stopped j h w =
    rw (sum_positions-changed b (flagged b stopped) j h w b.book.positions (pos 0) (pos 0)) refl

-- Whether a revalued account is stopped out now.
abbrev stops : AccountState → ℤ → Bool
stops a level = not a.stopped_out && stop_out a.equity_minor a.margin_used_minor level

record Settled (b b' : PaperBroker) : Type 0 where
  stopped : Bool
  journal : Journal
  halted : Bool
  why : RejectReason
  same : b' ≡ changed b (flagged b stopped) journal halted why
  quiet : stops (flagged b stopped) b.config.stop_out_level_bp ≡ false

recompute_quiet :
    (b : PaperBroker) (now_ns : ℕ)
    → stops (revalued b) b.config.stop_out_level_bp ≡ false
    → recompute_account b now_ns ≡ record b { account = revalued b }
unfolding recompute_account
recompute_quiet b now_ns h = rw (recompute_account, h) refl

-- The journal with the stop-out.
abbrev stop_out_journal : PaperBroker → ℕ → Journal
stop_out_journal b now_ns =
    let a = revalued b in
    (emit b.journal account_update now_ns b.config.run_id 0 0 0 a.balance_minor a.equity_minor
      a.margin_used_minor (pos (reason_code insufficient_margin))).1

recompute-Settled : (b : PaperBroker) (now_ns : ℕ) → Settled b (recompute_account b now_ns)
unfolding recompute_account halt record_event
recompute-Settled b now_ns = elim (Bool-cases (stops (revalued b) b.config.stop_out_level_bp)) [
  | inr e ↦ record {
    stopped = (revalued b).stopped_out;
    journal = b.journal;
    halted = b.is_halted;
    why = b.halt_reason;
    same = recompute_quiet b now_ns e;
    quiet = e;
  }
  | inl e ↦ elim (Bool-cases b.is_halted) [
    | inl h ↦ record {
      stopped = true;
      journal = stop_out_journal b now_ns;
      halted = b.is_halted;
      why = b.halt_reason;
      same = rw (recompute_account, e) (rw (h) refl);
      quiet = refl;
    }
    | inr h ↦ record {
      stopped = true;
      journal = stop_out_journal b now_ns;
      halted = true;
      why = insufficient_margin;
      same = rw (recompute_account, e) (rw (h) refl);
      quiet = refl;
    }
  ]
]

-- The record of an account, and the one of its profit.
abbrev account_record : ℕ → AccountState → ℕ → JournalRecord
account_record run_id a now_ns = record {
  seq = 0;
  ts_ns = now_ns;
  type = type_code account_update;
  reserved = 0;
  symbol_id = 0;
  run_id = run_id;
  logical_order_id = 0;
  position_ticket = 0;
  a = a.balance_minor;
  b = a.equity_minor;
  c = a.margin_used_minor;
  d = a.free_margin_minor;
}

abbrev profit_record : ℕ → AccountState → ℕ → JournalRecord
profit_record run_id a now_ns = record {
  seq = 0;
  ts_ns = now_ns;
  type = type_code pnl_update;
  reserved = 0;
  symbol_id = 0;
  run_id = run_id;
  logical_order_id = 0;
  position_ticket = 0;
  a = a.realized_pnl_minor;
  b = a.unrealized_pnl_minor;
  c = a.commission_paid_minor;
  d = pos 0;
}

-- The journal after both records.
abbrev noted : Journal → ℕ → AccountState → ℕ → Journal
noted j run_id a now_ns =
    (append (append j (account_record run_id a now_ns)).1 (profit_record run_id a now_ns)).1

refresh_account-journal :
    (b : PaperBroker) (now_ns : ℕ)
    → refresh_account b now_ns ≡ record (recompute_account b now_ns) {
      journal =
          noted
            (recompute_account b now_ns).journal
            (recompute_account b now_ns).config.run_id
            (recompute_account b now_ns).account
            now_ns;
    }
unfolding refresh_account record_event emit
refresh_account-journal b now_ns = refl

-- A refresh of a settled broker whose journal holds the record of its account.
Settled-refresh :
    (b b' : PaperBroker) (now_ns : ℕ)
    → (s : Settled b b') → (j : Journal)
    → Holds j (account_record b.config.run_id (flagged b s.stopped) now_ns)
    → Unrecoverable (refresh_account (record b' { journal = j }) now_ns).journal
Settled-refresh b b' now_ns s j h =
    let r = changed b (flagged b s.stopped) j s.halted s.why in
    let r_lem : record b' { journal = j } ≡ r =
      ap (λ (x : PaperBroker). record x { journal = j }) s.same in
    let a_lem : revalued r ≡ flagged b s.stopped = revalued-changed b s.stopped j s.halted s.why in
    let quiet : stops (revalued r) b.config.stop_out_level_bp ≡ false =
      ap (λ a. stops a b.config.stop_out_level_bp) a_lem ∙ s.quiet in
    let again : recompute_account r now_ns ≡ r =
      recompute_quiet r now_ns quiet ∙ ap (λ a. record r { account = a }) a_lem in
    let noted_lem : (refresh_account r now_ns).journal
        ≡ noted j b.config.run_id (flagged b s.stopped) now_ns =
      ap (λ (x : PaperBroker). x.journal) (refresh_account-journal r now_ns)
      ∙ ap (λ (x : PaperBroker). noted x.journal x.config.run_id x.account now_ns) again in
    rw (r_lem, noted_lem)
      (append-Unrecoverable
        (append j (account_record b.config.run_id (flagged b s.stopped) now_ns)).1 _
        (append-repeat j (account_record b.config.run_id (flagged b s.stopped) now_ns) h))

refresh_twice :
    (b : PaperBroker) (now_ns : ℕ)
    → Unrecoverable (refresh_account (refresh_account b now_ns) now_ns).journal
refresh_twice b now_ns =
    let b' = recompute_account b now_ns in
    let s = recompute-Settled b now_ns in
    let j = noted b'.journal b'.config.run_id b'.account now_ns in
    let held : Holds j (account_record b'.config.run_id b'.account now_ns) =
      append-Holds (append b'.journal (account_record b'.config.run_id b'.account now_ns)).1
        (profit_record b'.config.run_id b'.account now_ns) _
        (append-Holds_self b'.journal (account_record b'.config.run_id b'.account now_ns)) in
    let account_lem : account_record b'.config.run_id b'.account now_ns
        ≡ account_record b.config.run_id (flagged b s.stopped) now_ns =
      ap (λ (x : PaperBroker). account_record x.config.run_id x.account now_ns) s.same in
    rw (refresh_account-journal b now_ns)
      (Settled-refresh b b' now_ns s j (subst (λ x. Holds j x) account_lem held))

-- A journal after more records.
unfoldable pub extended : Journal → List JournalRecord → Journal
extended j [] = j
extended j (r ∷ rs) = extended (append j r).1 rs

extended-Unrecoverable :
    (j : Journal) (rs : List JournalRecord) → Unrecoverable j → Unrecoverable (extended j rs)
unfolding extended
extended-Unrecoverable j [] u = u
extended-Unrecoverable j (r ∷ rs) u =
    extended-Unrecoverable (append j r).1 rs (append-Unrecoverable j r u)

finish_refreshed :
    (b : PaperBroker) (slot now_ns : ℕ)
    → Unrecoverable (refresh_account (finish b slot filled now_ns) now_ns).journal
unfolding finish
finish_refreshed b slot now_ns =
    let b1 = transition b slot filled now_ns in
    let b2 = write_order b1 slot (record (order_at b1 slot) { ts_terminal_ns = now_ns }) in
    refresh_twice (close_order (release_reservation b2 (order_at b2 slot))) now_ns

conclude_fill_last :
    (b : PaperBroker) (slot now_ns : ℕ)
    → leb_ℤ (remaining (order_at b slot)) (pos 0) ≡ true
    → conclude_fill b slot now_ns ≡ finish b slot filled now_ns
unfolding conclude_fill
conclude_fill_last b slot now_ns h = rw (conclude_fill, h) refl

apply_fill_last :
    (b : PaperBroker) (slot : ℕ) (price volume : ℤ) (now_ns : ℕ)
    → leb_ℤ (remaining (order_at (book_fill b slot price volume now_ns) slot)) (pos 0) ≡ true
    → apply_fill b slot price volume now_ns
      ≡ refresh_account (finish (book_fill b slot price volume now_ns) slot filled now_ns) now_ns
unfolding apply_fill
apply_fill_last b slot price volume now_ns h =
    ap (λ b'. refresh_account b' now_ns)
      (conclude_fill_last (book_fill b slot price volume now_ns) slot now_ns h)

-- Once a fill completes an order, the account is recorded twice at the same time, and the journal, whatever
-- follows in it, is never recovered.
pub fill_unrecoverable :
    (b : PaperBroker) (slot : ℕ) (price volume : ℤ) (now_ns : ℕ)
    → leb_ℤ (remaining (order_at (book_fill b slot price volume now_ns) slot)) (pos 0) ≡ true
    → (rs : List JournalRecord) (mode : MarginMode) (kill : Bool) (halt_reason : HaltReason)
    → recover (extended (apply_fill b slot price volume now_ns).journal rs) mode kill halt_reason
      ≡ none
fill_unrecoverable b slot price volume now_ns last rs mode kill halt_reason =
    Unrecoverable-recover _ mode kill halt_reason (
      extended-Unrecoverable (apply_fill b slot price volume now_ns).journal rs (
        subst (λ (b' : PaperBroker). Unrecoverable b'.journal)
          (sym (apply_fill_last b slot price volume now_ns last))
          (finish_refreshed (book_fill b slot price volume now_ns) slot now_ns)))

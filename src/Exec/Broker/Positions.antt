-- ===== src/Exec/Broker/Positions.antt =====
-- include/exec/paper_broker.hpp: what a fill does to the positions.
use market_microstructure_en.Base.{
  ℕ, suc, Bool, true, false, ◌&&◌, not, ◌==◌, if◌then◌else◌, List, [], ◌∷◌, get_or, set, Option,
  none, some,
}
use market_microstructure_en.Base.Int.{ℤ, pos, ◌+ℤ◌, ◌-ℤ◌, ◌*ℤ◌, ◌==ℤ◌, ltb_ℤ}
use market_microstructure_en.Base.Words.{add64}
use market_microstructure_en.Exec.Types.{
  Side, buy, sell, market, limit, OrderType, OrderState, sent, acknowledged, partially_filled,
  corrupted_state, reduce_only_no_position, Order, closed,
}
use market_microstructure_en.Exec.Account.{
  Position, SymbolSpec, is_closed, open_ticket, find_position, add_volume,
}
use market_microstructure_en.Exec.Journal.{position_update}
use market_microstructure_en.Exec.Broker.State.{
  PaperBroker, order_at, spec_of, side_code, record_event, halt,
}

abbrev pub same_side : Side → Side → Bool
same_side buy buy = true
same_side sell sell = true
same_side buy sell = false
same_side sell buy = false

abbrev pub opposite : Side → Side
opposite buy = sell
opposite sell = buy

abbrev pub is_limit : OrderType → Bool
is_limit limit = true
is_limit _ = false

abbrev pub is_market : OrderType → Bool
is_market market = true
is_market _ = false

abbrev pub is_sent : OrderState → Bool
is_sent sent = true
is_sent _ = false

abbrev pub is_fillable : OrderState → Bool
is_fillable acknowledged = true
is_fillable partially_filled = true
is_fillable _ = false

abbrev pub is_partially_filled : OrderState → Bool
is_partially_filled partially_filled = true
is_partially_filled _ = false

-- `Position{}`, read out of range only.
abbrev pub no_position : Position
no_position = record {
  position_ticket = 0;
  symbol_id = 0;
  side = buy;
  state = closed;
  volume = pos 0;
  avg_price_ticks = pos 0;
  realized_pnl_minor = pos 0;
  opened_ns = 0;
  closed_ns = 0;
}

abbrev pub position_at : PaperBroker → ℕ → Position
position_at b i = get_or b.book.positions i no_position

abbrev pub write_position : PaperBroker → ℕ → Position → PaperBroker
write_position b i p = record b { book = record { positions = set b.book.positions i p } }

-- The loop of `find_reducible`.
unfoldable pub reducible_slot : List Position → ℕ → Side → Option ℕ
reducible_slot [] symbol_id order_side = none
reducible_slot (p ∷ ps) symbol_id order_side =
    let rest = reducible_slot ps symbol_id order_side in
    if p.symbol_id == symbol_id
      && same_side p.side (opposite order_side)
      && not (is_closed p.state)
      && ltb_ℤ (pos 0) p.volume
    then some 0
    else elim rest [ none ↦ none | some i ↦ some (suc i) ]

-- The loop of `find_symbol_position`.
unfoldable pub symbol_slot : List Position → ℕ → Option ℕ
symbol_slot [] symbol_id = none
symbol_slot (p ∷ ps) symbol_id =
    let rest = symbol_slot ps symbol_id in
    if p.symbol_id == symbol_id && not (is_closed p.state)
    then some 0
    else elim rest [ none ↦ none | some i ↦ some (suc i) ]

-- `last_ticket_ = position->position_ticket; journal_position(*position, now_ns);`
unfoldable pub settle : PaperBroker → ℕ → ℕ → PaperBroker
unfolding record_event
settle b i now_ns =
    let p = position_at b i in
    record_event (record b { last_ticket = p.position_ticket }) position_update now_ns 0 p.symbol_id
      p.position_ticket (pos (side_code p.side)) p.volume p.avg_price_ticks p.realized_pnl_minor

-- The volume that a fill closes of a position, and the profit that this realizes.
abbrev pub closing_volume : Position → ℤ → ℤ
closing_volume p volume = if ltb_ℤ volume p.volume then volume else p.volume

unfoldable pub realized_by : Position → SymbolSpec → ℤ → ℤ → ℤ
realized_by p spec price closing =
    let move = elim p.side as (λ _. ℤ) [
      | buy ↦ price -ℤ p.avg_price_ticks
      | sell ↦ p.avg_price_ticks -ℤ price
    ] in
    move *ℤ closing *ℤ spec.tick_value_minor

-- A position without the closed volume.
unfoldable pub reduced : Position → ℤ → ℤ → ℕ → Position
reduced p closing realized now_ns =
    let left = p.volume -ℤ closing in
    let p' = record p { realized_pnl_minor = p.realized_pnl_minor +ℤ realized; volume = left } in
    if left ==ℤ pos 0 then record p' { state = closed; closed_ns = now_ns } else p'

-- Closes a volume of a position and realizes its profit.
unfoldable pub reduce_position : PaperBroker → ℕ → ℕ → ℤ → ℤ → ℕ → PaperBroker
unfolding realized_by reduced
reduce_position b symbol_id i price volume now_ns =
    let p = position_at b i in
    let closing = closing_volume p volume in
    let realized = realized_by p (spec_of b symbol_id) price closing in
    record (write_position b i (reduced p closing realized now_ns)) {
      account = record b.account {
        realized_pnl_minor = b.account.realized_pnl_minor +ℤ realized;
        balance_minor = b.account.balance_minor +ℤ realized;
      };
    }

-- Opens a position under the next ticket: its slot, or a halt where the book is full.
unfoldable pub open_next : PaperBroker → Order → ℤ → ℤ → ℕ → Option ℕ × PaperBroker
unfolding halt
open_next b order volume price now_ns =
    let ticket = add64 b.ticket_seq 1 in
    let b' = record b { ticket_seq = ticket } in
    elim (open_ticket b.book ticket order.symbol_id order.side volume price now_ns) [
      | none ↦ (none, halt b' corrupted_state)
      | some (i, book') ↦ (some i, record b' { book = book' })
    ]

-- The three ways of a fill to the positions: reduce only, hedging and netting.
unfoldable pub apply_reduce_only : PaperBroker → Order → ℤ → ℤ → ℕ → PaperBroker
unfolding settle reduce_position halt
apply_reduce_only b order price volume now_ns =
    elim (reducible_slot b.book.positions order.symbol_id order.side) [
      | none ↦ halt b reduce_only_no_position
      | some i ↦ settle (reduce_position b order.symbol_id i price volume now_ns) i now_ns
    ]

abbrev pub ticket_slot : PaperBroker → ℕ → Option ℕ
ticket_slot b ticket = if ticket == 0 then none else find_position b.book ticket

unfoldable pub apply_hedging : PaperBroker → ℕ → ℤ → ℤ → ℕ → PaperBroker
unfolding settle open_next
apply_hedging b slot price volume now_ns = elim (ticket_slot b (get_or b.order_ticket slot 0)) [
  | some i ↦ settle (write_position b i (add_volume (position_at b i) volume price)) i now_ns
  | none ↦
      let (opened, b') = open_next b (order_at b slot) volume price now_ns in
      elim opened [
        | none ↦ b'
        | some i ↦
            settle (record b' { order_ticket = set b'.order_ticket slot b'.ticket_seq }) i now_ns
      ]
]

-- Opens a position and settles it, or halts.
unfoldable pub open_and_settle : PaperBroker → Order → ℤ → ℤ → ℕ → PaperBroker
unfolding settle open_next
open_and_settle b order volume price now_ns =
    let (opened, b') = open_next b order volume price now_ns in
    elim opened [ none ↦ b' | some i ↦ settle b' i now_ns ]

unfoldable pub apply_netting : PaperBroker → Order → ℤ → ℤ → ℕ → PaperBroker
unfolding open_and_settle settle reduce_position
apply_netting b order price volume now_ns = elim (symbol_slot b.book.positions order.symbol_id) [
  | none ↦ open_and_settle b order volume price now_ns
  | some i ↦
      let p = position_at b i in
      let b' = reduce_position b order.symbol_id i price volume now_ns in
      let residual = volume -ℤ closing_volume p volume in
      if same_side p.side order.side
      then settle (write_position b i (add_volume p volume price)) i now_ns
      else if (position_at b' i).volume ==ℤ pos 0 && ltb_ℤ (pos 0) residual
      then open_and_settle b' order residual price now_ns
      else settle b' i now_ns
]

unfoldable pub apply_to_position : PaperBroker → ℕ → ℤ → ℤ → ℕ → PaperBroker
unfolding apply_reduce_only apply_hedging apply_netting
apply_to_position b slot price volume now_ns =
    let order = order_at b slot in
    if b.config.hedging && order.reduce_only
    then apply_reduce_only b order price volume now_ns
    else if b.config.hedging
    then apply_hedging b slot price volume now_ns
    else apply_netting b order price volume now_ns

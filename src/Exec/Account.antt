-- ===== src/Exec/Account.antt =====
-- include/exec/account.hpp: the position book of the simulated account, the margin that a position
-- requires, the broker's stop-out and the profit of a position.
use market_microstructure_en.Base.{
  ℕ, zero, suc, Bool, true, false, ◌&&◌, ◌||◌, not, ◌==◌, leb, if◌then◌else◌, List, [], ◌∷◌, ◌++◌,
  length, set, Option, none, some,
}
use market_microstructure_en.Base.Int.{ℤ, pos, ◌+ℤ◌, ◌-ℤ◌, ◌*ℤ◌, neg, quot, ◌==ℤ◌, leb_ℤ, ltb_ℤ}
use market_microstructure_en.Exec.Types.{Side, buy, sell, PositionState, open_position, closed}
pub mod Positions

abbrev pub max_positions : ℕ
max_positions = 64

-- `exec::Position`, member by member.
pub record Position : Type 0 where
  pub position_ticket : ℕ
  pub symbol_id : ℕ
  pub side : Side
  pub state : PositionState
  pub volume : ℤ
  pub avg_price_ticks : ℤ
  pub realized_pnl_minor : ℤ
  pub opened_ns : ℕ
  pub closed_ns : ℕ

-- `exec::SymbolSpec`, member by member.
pub record SymbolSpec : Type 0 where
  pub symbol_id : ℕ
  pub tick_size_ticks : ℤ
  pub volume_min : ℤ
  pub volume_max : ℤ
  pub volume_step : ℤ
  pub stops_level_ticks : ℤ
  pub freeze_level_ticks : ℤ
  pub contract_size : ℤ
  pub tick_value_minor : ℤ
  pub commission_per_lot_minor : ℤ
  pub margin_rate_bp : ℤ
  pub tradable : Bool

-- `a % b`, whose sign is that of `a`.
unfoldable pub remainder : ℤ → ℤ → ℤ
remainder a b = a -ℤ quot a b *ℤ b

unfoldable pub volume_valid : SymbolSpec → ℤ → Bool
volume_valid spec volume =
    leb_ℤ spec.volume_min volume
    && leb_ℤ volume spec.volume_max
    && ltb_ℤ (pos 0) spec.volume_step
    && (remainder volume spec.volume_step ==ℤ pos 0)

unfoldable pub price_aligned : SymbolSpec → ℤ → Bool
price_aligned spec price_ticks =
    ltb_ℤ (pos 0) spec.tick_size_ticks && (remainder price_ticks spec.tick_size_ticks ==ℤ pos 0)

abbrev pub is_closed : PositionState → Bool
is_closed closed = true
is_closed _ = false

-- The slots of `positions_` below `count_`.
pub record PositionBook : Type 0 where
  pub positions : List Position

abbrev pub empty_book : PositionBook
empty_book = record { positions = [] }

-- The loop of `open` that looks for a slot to use again.
unfoldable pub closed_slot : List Position → Option ℕ
closed_slot [] = none
closed_slot (p ∷ ps) =
    let rest = closed_slot ps in
    if is_closed p.state then some 0 else elim rest [ none ↦ none | some i ↦ some (suc i) ]

abbrev pub opened : ℕ → ℕ → Side → ℤ → ℤ → ℕ → Position
opened ticket symbol_id side volume price_ticks ts_ns = record {
  position_ticket = ticket;
  symbol_id = symbol_id;
  side = side;
  state = open_position;
  volume = volume;
  avg_price_ticks = price_ticks;
  realized_pnl_minor = pos 0;
  opened_ns = ts_ns;
  closed_ns = 0;
}

-- `open` for a position that is made already: its slot and the book, or none where there is no room.
unfoldable pub place : PositionBook → Position → Option (ℕ × PositionBook)
place book p = elim (closed_slot book.positions) [
  | some slot ↦ some (slot, record { positions = set book.positions slot p })
  | none ↦
      if leb max_positions (length book.positions)
      then none
      else some (length book.positions, record { positions = book.positions ++ (p ∷ []) })
]

unfoldable pub open_ticket : PositionBook → ℕ → ℕ → Side → ℤ → ℤ → ℕ → Option (ℕ × PositionBook)
open_ticket book ticket symbol_id side volume price_ticks ts_ns =
    place book (opened ticket symbol_id side volume price_ticks ts_ns)

-- The loop of `find`: the slot of the position that is not closed.
unfoldable pub find_ticket : ℕ → List Position → Option ℕ
find_ticket ticket [] = none
find_ticket ticket (p ∷ ps) =
    let rest = find_ticket ticket ps in
    if p.position_ticket == ticket && not (is_closed p.state)
    then some 0
    else elim rest [ none ↦ none | some i ↦ some (suc i) ]

unfoldable pub find_position : PositionBook → ℕ → Option ℕ
find_position book ticket = find_ticket ticket book.positions

-- Integer weighted mean, rounded to the nearest.
unfoldable pub add_volume : Position → ℤ → ℤ → Position
add_volume p volume price_ticks =
    let total = p.volume +ℤ volume in
    let weighted = p.avg_price_ticks *ℤ p.volume +ℤ price_ticks *ℤ volume in
    if leb_ℤ total (pos 0)
    then p
    else record p { avg_price_ticks = quot (weighted +ℤ quot total (pos 2)) total; volume = total }

unfoldable pub count_open : List Position → ℕ
count_open [] = 0
count_open (p ∷ ps) = if is_closed p.state then count_open ps else suc (count_open ps)

unfoldable pub open_count : PositionBook → ℕ
open_count book = count_open book.positions

abbrev pub signed_volume : Side → ℤ → ℤ
signed_volume buy volume = volume
signed_volume sell volume = neg volume

-- One round of the loop of `net_volume`.
unfoldable pub net_step : ℕ → ℤ → Position → ℤ
net_step symbol_id net p =
    if not (p.symbol_id == symbol_id) || is_closed p.state
    then net
    else net +ℤ signed_volume p.side p.volume

unfoldable pub net_loop : ℕ → ℤ → List Position → ℤ
net_loop symbol_id net [] = net
net_loop symbol_id net (p ∷ ps) = net_loop symbol_id (net_step symbol_id net p) ps

unfoldable pub net_volume : PositionBook → ℕ → ℤ
net_volume book symbol_id = net_loop symbol_id (pos 0) book.positions

unfoldable pub required_minor : SymbolSpec → ℤ → ℤ → ℤ
required_minor spec volume price_ticks =
    let notional = volume *ℤ price_ticks *ℤ spec.tick_value_minor in
    if leb_ℤ volume (pos 0) || leb_ℤ price_ticks (pos 0)
    then pos 0
    else quot (notional *ℤ spec.margin_rate_bp +ℤ pos 9999) (pos 10000)

-- `stop_out`, on the two members of the account that it reads.
unfoldable pub stop_out : ℤ → ℤ → ℤ → Bool
stop_out equity_minor margin_used_minor stop_out_level_bp =
    if leb_ℤ margin_used_minor (pos 0)
    then false
    else ltb_ℤ (quot (equity_minor *ℤ pos 10000) margin_used_minor) stop_out_level_bp

abbrev pub price_move : Side → ℤ → ℤ → ℤ
price_move buy avg_price_ticks mark_ticks = mark_ticks -ℤ avg_price_ticks
price_move sell avg_price_ticks mark_ticks = avg_price_ticks -ℤ mark_ticks

unfoldable pub position_pnl_minor : Position → SymbolSpec → ℤ → ℤ
position_pnl_minor p spec mark_ticks =
    let move = price_move p.side p.avg_price_ticks mark_ticks in
    if leb_ℤ p.volume (pos 0) || leb_ℤ mark_ticks (pos 0)
    then pos 0
    else move *ℤ p.volume *ℤ spec.tick_value_minor

-- ===== src/Portfolio.antt =====
-- include/portfolio/portfolio.hpp: the exposure by symbol, rebuilt at each change of a position.
use market_microstructure_en.Base.{
  ℕ, suc, Bool, true, false, ◌&&◌, ◌||◌, not, ◌==◌, leb, if◌then◌else◌, List, [], ◌∷◌, ◌++◌, length,
  get_or, set, replicate, Option, none, some,
}
use market_microstructure_en.Base.Int.{ℤ, pos, ltb_ℤ, ◌+ℤ◌, neg}
use market_microstructure_en.Exec.Types.{Side, buy, sell}

pub data MarginMode : Type 0 where
  netting hedging : MarginMode

abbrev pub is_netting : MarginMode → Bool
is_netting netting = true
is_netting hedging = false

pub record Aggregate : Type 0 where
  pub net : ℤ
  pub gross : ℤ
  pub realized : ℤ
  pub unrealized : ℤ

abbrev pub no_aggregate : Aggregate
no_aggregate = record { net = pos 0; gross = pos 0; realized = pos 0; unrealized = pos 0 }

-- `Portfolio::P`.
pub record Holding : Type 0 where
  pub ticket : ℕ
  pub symbol : ℕ
  pub side : Side
  pub volume : ℤ
  pub realized : ℤ
  pub unrealized : ℤ

pub record Portfolio : Type 0 where
  pub mode : MarginMode
  pub holdings : List Holding
  pub aggregates : List Aggregate

abbrev pub symbol_count : ℕ
symbol_count = 8

abbrev pub empty_portfolio : MarginMode → Portfolio
empty_portfolio mode = record {
  mode = mode;
  holdings = [];
  aggregates = replicate symbol_count no_aggregate;
}

-- One round of the loop of `rebuild`.
abbrev pub add_holding : List Aggregate → Holding → List Aggregate
add_holding aggregates p =
    let a = get_or aggregates p.symbol no_aggregate in
    set aggregates p.symbol (record {
      net = a.net +ℤ elim p.side as (λ _. ℤ) [ buy ↦ p.volume | sell ↦ neg p.volume ];
      gross = a.gross +ℤ p.volume;
      realized = a.realized +ℤ p.realized;
      unrealized = a.unrealized +ℤ p.unrealized;
    })

unfoldable pub rebuild_from : List Aggregate → List Holding → List Aggregate
rebuild_from aggregates [] = aggregates
rebuild_from aggregates (p ∷ ps) = rebuild_from (add_holding aggregates p) ps

unfoldable pub rebuild : Portfolio → Portfolio
unfolding rebuild_from
rebuild f = record f { aggregates = rebuild_from (replicate symbol_count no_aggregate) f.holdings }

-- The loops of `find` and of the test for another ticket of the symbol.
unfoldable pub holding_slot : List Holding → ℕ → Option ℕ
holding_slot [] ticket = none
holding_slot (p ∷ ps) ticket =
    let rest = holding_slot ps ticket in
    if p.ticket == ticket then some 0 else elim rest [ none ↦ none | some i ↦ some (suc i) ]

unfoldable pub other_ticket : List Holding → ℕ → ℕ → Bool
other_ticket [] symbol ticket = false
other_ticket (p ∷ ps) symbol ticket =
    (p.symbol == symbol) && not (p.ticket == ticket) || other_ticket ps symbol ticket

unfoldable pub upsert : Portfolio → Holding → Bool × Portfolio
unfolding rebuild holding_slot other_ticket
upsert f p =
    if leb symbol_count p.symbol || ltb_ℤ p.volume (pos 0)
    then (false, f)
    else if is_netting f.mode && other_ticket f.holdings p.symbol p.ticket
    then (false, f)
    else elim (holding_slot f.holdings p.ticket) [
      | some i ↦ (true, rebuild (record f { holdings = set f.holdings i p }))
      | none ↦
          if leb 64 (length f.holdings)
          then (false, f)
          else (true, rebuild (record f { holdings = f.holdings ++ (p ∷ []) }))
    ]

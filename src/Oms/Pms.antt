-- ===== src/Oms/Pms.antt =====
-- include/oms/pms.hpp: the position store. `p_[0, count_)` is the list `positions`, and a pointer into it a
-- slot number.
use market_microstructure_en.Base.{
  ℕ, suc, Bool, true, false, ◌||◌, not, ◌==◌, leb, if◌then◌else◌, List, [], ◌∷◌, ◌++◌, length,
  get_or, set, replicate, Option, none, some, is_some,
}
use market_microstructure_en.Base.Int.{pos, ltb_ℤ}
use market_microstructure_en.Exec.Types.{
  Side, buy, PositionState, opening, open_position, modify_pending,
}
use market_microstructure_en.Exec.Account.{Position}
use market_microstructure_en.Oms.OrderState.{legal_position}

pub record Pms : Type 0 where
  pub positions : List Position
  pub modify_seq : List ℕ

abbrev pub pms_capacity : ℕ
pms_capacity = 64

abbrev pub empty_pms : Pms
empty_pms = record { positions = []; modify_seq = replicate pms_capacity 0 }

-- `Position{}`.
abbrev pub blank_position : Position
blank_position = record {
  position_ticket = 0;
  symbol_id = 0;
  side = buy;
  state = opening;
  volume = pos 0;
  avg_price_ticks = pos 0;
  realized_pnl_minor = pos 0;
  opened_ns = 0;
  closed_ns = 0;
}

abbrev pub held_at : Pms → ℕ → Position
held_at s i = get_or s.positions i blank_position

abbrev pub write_held : Pms → ℕ → Position → Pms
write_held s i p = record s { positions = set s.positions i p }

-- The loop of `find`.
unfoldable pub held_from : List Position → ℕ → Option ℕ
held_from [] ticket = none
held_from (p ∷ ps) ticket =
    let rest = held_from ps ticket in
    if p.position_ticket == ticket
    then some 0
    else elim rest [ none ↦ none | some i ↦ some (suc i) ]

unfoldable pub held_slot : Pms → ℕ → Option ℕ
unfolding held_from
held_slot s ticket = held_from s.positions ticket

unfoldable pub restore_position : Pms → Position → Bool × Pms
restore_position s p =
    if (is_some (held_slot s p.position_ticket) || leb pms_capacity (length s.positions))
      || ((p.position_ticket == 0) || leb 8 p.symbol_id || ltb_ℤ p.volume (pos 0))
    then (false, s)
    else (true, record s { positions = s.positions ++ (p ∷ []) })

unfoldable pub open_held : Pms → ℕ → ℕ → Side → Bool × Pms
open_held s ticket symbol side =
    if is_some (held_slot s ticket) || leb pms_capacity (length s.positions) then (false, s) else (
      true,
      record s {
        positions =
            s.positions
            ++ (record blank_position {
              position_ticket = ticket;
              symbol_id = symbol;
              side = side;
              state = opening;
            }
                ∷ []);
      },
    )

unfoldable pub move_position : Pms → ℕ → PositionState → Bool × Pms
move_position s ticket next = elim (held_slot s ticket) [
  | none ↦ (false, s)
  | some i ↦
      let p = held_at s i in
      if legal_position p.state next
      then (true, write_held s i (record p { state = next }))
      else (false, s)
]

abbrev pub is_open_position : PositionState → Bool
is_open_position open_position = true
is_open_position _ = false

unfoldable pub modify_position : Pms → ℕ → ℕ → Bool × Pms
unfolding move_position
modify_position s ticket seq = elim (held_slot s ticket) [
  | none ↦ (false, s)
  | some i ↦
      if not (is_open_position (held_at s i).state) || leb seq (get_or s.modify_seq i 0)
      then (false, s)
      else move_position (record s { modify_seq = set s.modify_seq i seq }) ticket modify_pending
]

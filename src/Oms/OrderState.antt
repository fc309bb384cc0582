-- ===== src/Oms/OrderState.antt =====
-- include/oms/order_state.hpp and position_state.hpp: which state changes are legal.
use market_microstructure_en.Base.{Bool, true, false, ◌≡◌, arith}
use market_microstructure_en.Exec.Types.{
  OrderState, new_order, risk_rejected, pending_send, sent, acknowledged, rejected, unknown,
  partially_filled, filled, cancel_pending, cancelled, expired, is_terminal, PositionState, opening,
  open_position, modify_pending, closing, closed, reconcile_unknown,
}

-- `legal` of order states.
unfoldable pub legal : OrderState → OrderState → Bool
legal new_order risk_rejected = true
legal new_order pending_send = true
legal pending_send sent = true
legal sent acknowledged = true
legal sent rejected = true
legal sent unknown = true
legal acknowledged partially_filled = true
legal acknowledged filled = true
legal acknowledged cancel_pending = true
legal acknowledged expired = true
legal partially_filled partially_filled = true
legal partially_filled filled = true
legal partially_filled cancel_pending = true
legal cancel_pending cancelled = true
legal cancel_pending filled = true
legal cancel_pending unknown = true
legal unknown next = is_terminal next
legal _ _ = false

-- `legal` of position states.
unfoldable pub legal_position : PositionState → PositionState → Bool
legal_position opening open_position = true
legal_position opening reconcile_unknown = true
legal_position open_position modify_pending = true
legal_position open_position closing = true
legal_position open_position reconcile_unknown = true
legal_position modify_pending open_position = true
legal_position modify_pending reconcile_unknown = true
legal_position closing closed = true
legal_position closing reconcile_unknown = true
legal_position reconcile_unknown open_position = true
legal_position reconcile_unknown closed = true
legal_position _ _ = false

-- A terminal state has no way out.
pub legal_terminal : (a b : OrderState) → is_terminal a ≡ true → legal a b ≡ false
unfolding legal
legal_terminal a b h = ground arith

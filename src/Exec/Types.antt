-- ===== src/Exec/Types.antt =====
-- include/exec/exec_types.hpp: order identity, enums, symbol specification, orders.
-- Prices, volumes and money are signed integers; ids, sequence numbers and times are numbers.
use Prim.Native.Nat.{bit_xor}
use market_microstructure_en.Base.{
  ℕ, zero, suc, Bool, true, false, ◌&&◌, not, ◌≡◌, refl, ◌↔◌, ◌==◌, arith,
}
use market_microstructure_en.Base.Int.{ℤ, pos, ◌-ℤ◌}
use market_microstructure_en.Base.Words.{mul64, shr, low_bits}

-- One FNV-1a round for a byte, then the eight bytes of a 64-bit value, lowest first.
abbrev pub fnv_offset : ℕ
fnv_offset = 1469598103934665603

abbrev pub fnv_prime : ℕ
fnv_prime = 1099511628211

unfoldable pub fnv_bytes : ℕ → ℕ → ℕ → ℕ
fnv_bytes zero hash value = hash
fnv_bytes (suc n) hash value =
    fnv_bytes n (mul64 (bit_xor hash (low_bits value 8)) fnv_prime) (shr value 8)

unfoldable pub fnv_mix : ℕ → ℕ → ℕ
unfolding fnv_bytes
fnv_mix hash value = fnv_bytes 8 hash value

unfoldable pub make_logical_order_id : ℕ → ℕ → ℕ → ℕ
unfolding fnv_mix
make_logical_order_id strategy_id symbol_id seq_global =
    fnv_mix (fnv_mix (fnv_mix fnv_offset strategy_id) symbol_id) seq_global

pub record BrokerOrderRef : Type 0 where
  pub run_id : ℕ
  pub logical_order_id : ℕ

unfoldable pub ref_eq : BrokerOrderRef → BrokerOrderRef → Bool
ref_eq a b = (a.run_id == b.run_id) && (a.logical_order_id == b.logical_order_id)

pub data Side : Type 0 where
  buy sell : Side

pub data OrderType : Type 0 where
  market limit stop stop_limit : OrderType

pub data OrderState : Type 0 where
  new_order risk_rejected pending_send sent acknowledged rejected unknown : OrderState
  partially_filled filled cancel_pending cancelled expired : OrderState

abbrev pub is_terminal : OrderState → Bool
is_terminal risk_rejected = true
is_terminal filled = true
is_terminal cancelled = true
is_terminal rejected = true
is_terminal expired = true
is_terminal _ = false

abbrev pub is_new : OrderState → Bool
is_new new_order = true
is_new _ = false

abbrev pub is_unknown : OrderState → Bool
is_unknown unknown = true
is_unknown _ = false

abbrev pub reserves_exposure : OrderState → Bool
reserves_exposure state = not (is_terminal state) && not (is_new state)

pub data PositionState : Type 0 where
  opening open_position modify_pending closing closed reconcile_unknown : PositionState

pub data RejectReason : Type 0 where
  no_reason invalid_price invalid_volume invalid_timestamp duplicate_order_id : RejectReason
  unknown_symbol insufficient_margin volume_below_minimum volume_above_maximum : RejectReason
  volume_not_step_aligned price_not_tick_aligned stops_level_violation market_closed : RejectReason
  stale_quote impossible_fill corrupted_state probabilistic_reject : RejectReason
  reduce_only_no_position reduce_only_excess_volume : RejectReason

-- `exec::Order`, member by member.
pub record Order : Type 0 where
  pub ref : BrokerOrderRef
  pub corr_id : ℕ
  pub symbol_id : ℕ
  pub side : Side
  pub type : OrderType
  pub state : OrderState
  pub reject_reason : RejectReason
  pub requested_volume : ℤ
  pub filled_volume : ℤ
  pub limit_price_ticks : ℤ
  pub trigger_price_ticks : ℤ
  pub triggered : Bool
  pub reduce_only : Bool
  pub ts_submit_ns : ℕ
  pub ts_effective_ns : ℕ
  pub ts_terminal_ns : ℕ
  pub expire_ns : ℕ
  pub queue_ahead : ℤ
  pub queue_validated : Bool
  pub avg_fill_price_ticks : ℤ
  pub commission_minor : ℤ
  pub last_applied_seq : ℕ

abbrev pub no_ref : BrokerOrderRef
no_ref = record { run_id = 0; logical_order_id = 0 }

-- `Order{}`.
abbrev pub default_order : Order
default_order = record {
  ref = no_ref;
  corr_id = 0;
  symbol_id = 0;
  side = buy;
  type = market;
  state = new_order;
  reject_reason = no_reason;
  requested_volume = pos 0;
  filled_volume = pos 0;
  limit_price_ticks = pos 0;
  trigger_price_ticks = pos 0;
  triggered = false;
  reduce_only = false;
  ts_submit_ns = 0;
  ts_effective_ns = 0;
  ts_terminal_ns = 0;
  expire_ns = 0;
  queue_ahead = pos 0;
  queue_validated = false;
  avg_fill_price_ticks = pos 0;
  commission_minor = pos 0;
  last_applied_seq = 0;
}

-- `Order::remaining`.
unfoldable pub remaining : Order → ℤ
remaining o = o.requested_volume -ℤ o.filled_volume

pub ref_eq_iff : (a b : BrokerOrderRef) → (ref_eq a b ≡ true) ↔ (a ≡ b)
unfolding ref_eq
ref_eq_iff a b = ground arith

pub ref_eq_refl : (a : BrokerOrderRef) → ref_eq a a ≡ true
ref_eq_refl a = (ref_eq_iff a a).1 refl

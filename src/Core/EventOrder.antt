-- ===== src/Core/EventOrder.antt =====
-- include/core/event_header.hpp and event_order.hpp: the total order of events.
use market_microstructure_en.Base.{
  ℕ, ◌≡◌, ◌⊎◌, arith, Bool, true, false, ◌&&◌, not, ◌==◌, ltb, if◌then◌else◌,
}

pub record EventHeader : Type 0 where
  pub seq_global : ℕ
  pub ts_broker_ns : ℕ
  pub ts_terminal_ns : ℕ
  pub ts_local_ns : ℕ
  pub corr_id : ℕ
  pub seq_source : ℕ
  pub symbol_id : ℕ
  pub source_id : ℕ
  pub type : ℕ
  pub source_priority : ℕ
  pub flags : ℕ

unfoldable pub event_order_less : EventHeader → EventHeader → Bool
event_order_less l r =
    if not (l.ts_local_ns == r.ts_local_ns)
    then ltb l.ts_local_ns r.ts_local_ns
    else if not (l.source_priority == r.source_priority)
    then ltb l.source_priority r.source_priority
    else ltb l.seq_source r.seq_source

unfoldable pub event_order_equal : EventHeader → EventHeader → Bool
event_order_equal l r =
    l.ts_local_ns == r.ts_local_ns
    && l.source_priority == r.source_priority
    && l.seq_source == r.seq_source

unfoldable pub event_order_regression : EventHeader → EventHeader → Bool
event_order_regression previous next = event_order_less next previous

-- The order of events is transitive.
pub event_order_trans :
    (a b c : EventHeader)
    → event_order_less a b ≡ true
    → event_order_less b c ≡ true
    → event_order_less a c ≡ true
unfolding event_order_less
event_order_trans a b c h k = ground arith

-- Exactly one holds of two events: the first is before, they are equal in the order, or the stream went
-- backwards.
pub event_order_total :
    (a b : EventHeader)
    → ((event_order_less a b ≡ true)
        × (event_order_equal a b ≡ false)
        × (event_order_regression a b ≡ false))
      ⊎ (((event_order_less a b ≡ false)
            × (event_order_equal a b ≡ true)
            × (event_order_regression a b ≡ false))
          ⊎ ((event_order_less a b ≡ false)
              × (event_order_equal a b ≡ false)
              × (event_order_regression a b ≡ true)))
unfolding event_order_less event_order_equal event_order_regression
event_order_total a b = ground arith

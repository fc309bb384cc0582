-- ===== src/Oms/Session.antt =====
-- The constraints of a trading session, include/oms/rate_limiter.hpp.
use market_microstructure_en.Base.{
  Bool, true, false, ◌&&◌, not, if◌then◌else◌, ◌≡◌, refl, arith, Bool-cases, inl, inr,
}

pub data SessionState : Type 0 where
  session_open session_closed : SessionState

abbrev pub is_session_open : SessionState → Bool
is_session_open session_open = true
is_session_open session_closed = false

pub record SessionConstraints : Type 0 where
  pub session : SessionState
  pub trading_halted : Bool
  pub order_entry_enabled : Bool
  pub allow_risk_reducing_during_halt : Bool

abbrev pub default_constraints : SessionConstraints
default_constraints = record {
  session = session_open;
  trading_halted = false;
  order_entry_enabled = true;
  allow_risk_reducing_during_halt = true;
}

unfoldable pub allows_new_exposure : SessionConstraints → Bool
allows_new_exposure c = c.order_entry_enabled && not c.trading_halted && is_session_open c.session

unfoldable pub allows_risk_reducing : SessionConstraints → Bool
allows_risk_reducing c =
    if not c.order_entry_enabled
    then false
    else if c.allow_risk_reducing_during_halt
    then true
    else not c.trading_halted && is_session_open c.session

-- A session that allows new exposure allows orders that reduce risk; where the latter are not allowed
-- during a halt, the two agree.
pub reducing_allowed :
    (c : SessionConstraints)
    → (allows_new_exposure c ≡ true → allows_risk_reducing c ≡ true)
      × (c.allow_risk_reducing_during_halt ≡ false → allows_risk_reducing c ≡ allows_new_exposure c)
unfolding allows_new_exposure allows_risk_reducing
reducing_allowed c = elim (Bool-cases c.order_entry_enabled) [
  | inl e ↦ elim (Bool-cases c.allow_risk_reducing_during_halt) [
    | inl a ↦ ((λ h. rw (e, a) refl), (λ h. absurd (grind arith)))
    | inr a ↦ ((λ h. grind arith), (λ h. rw (e, a) refl))
  ]
  | inr e ↦ ((λ h. absurd (grind arith)), (λ h. rw e refl))
]

-- ===== src/Oms/Reconciler.antt =====
-- include/oms/reconciler.hpp: the comparison of the engine's view of an account with the broker's.
use market_microstructure_en.Base.{
  both_false, ℕ, Bool, true, false, ◌||◌, not, ◌==◌, if◌then◌else◌, ◌≡◌, ◌↔◌, refl, arith,
}
use market_microstructure_en.Base.Int.{ℤ, pos, ◌-ℤ◌, ltb_ℤ, ◌≤ℤ◌, -ℤ_parts}

pub data ReconcileBreak : Type 0 where
  no_break order_state filled_quantity position_quantity position_ticket : ReconcileBreak
  orphan_order orphan_position balance equity margin margin_mode : ReconcileBreak
  unresolved_unknown invalid_tolerance : ReconcileBreak

pub record ReconcileView : Type 0 where
  pub engine_orders : ℕ
  pub broker_orders : ℕ
  pub engine_positions : ℕ
  pub broker_positions : ℕ
  pub engine_balance : ℤ
  pub broker_balance : ℤ
  pub engine_equity : ℤ
  pub broker_equity : ℤ
  pub engine_margin : ℤ
  pub broker_margin : ℤ
  pub order_state_mismatch : Bool
  pub filled_quantity_mismatch : Bool
  pub position_quantity_mismatch : Bool
  pub position_ticket_mismatch : Bool
  pub has_orphan_order : Bool
  pub has_orphan_position : Bool
  pub margin_mode_mismatch : Bool
  pub has_unresolved_unknown : Bool
  pub has_orphan : Bool

-- `if (found) return kind;`
unfoldable pub break_if : Bool → ReconcileBreak → ReconcileBreak → ReconcileBreak
break_if found kind rest = if found then kind else rest

unfoldable pub outside : ℤ → ℤ → ℤ → Bool
outside tolerance a b = if ltb_ℤ b a then ltb_ℤ tolerance (a -ℤ b) else ltb_ℤ tolerance (b -ℤ a)

unfoldable pub reconcile_break : ReconcileView → ℤ → ReconcileBreak
reconcile_break v tolerance = break_if (ltb_ℤ tolerance (pos 0)) invalid_tolerance (
    break_if v.order_state_mismatch order_state (
      break_if v.filled_quantity_mismatch filled_quantity (
        break_if v.position_quantity_mismatch position_quantity (
          break_if v.position_ticket_mismatch position_ticket (
            break_if (v.has_orphan_order || v.has_orphan) orphan_order (
              break_if v.has_orphan_position orphan_position (
                break_if (outside tolerance v.engine_balance v.broker_balance) balance (
                  break_if (outside tolerance v.engine_equity v.broker_equity) equity (
                    break_if (outside tolerance v.engine_margin v.broker_margin) margin (
                      break_if v.margin_mode_mismatch margin_mode (
                        break_if v.has_unresolved_unknown unresolved_unknown (
                          break_if (not (v.engine_orders == v.broker_orders)) orphan_order (
                            break_if (not (v.engine_positions == v.broker_positions))
                              orphan_position no_break)))))))))))))

abbrev pub is_no_break : ReconcileBreak → Bool
is_no_break no_break = true
is_no_break _ = false

unfoldable pub reconciled : ReconcileView → ℤ → Bool
reconciled v tolerance = is_no_break (reconcile_break v tolerance)

-- Two amounts differ by at most the tolerance.
pub record Near (tolerance a b : ℤ) : Type 0 where
  pub above : a -ℤ b ≤ℤ tolerance
  pub below : b -ℤ a ≤ℤ tolerance

-- Nothing is reported as different, amounts are near, and counts agree.
pub record Agrees (v : ReconcileView) (tolerance : ℤ) : Type 0 where
  pub tolerance_ok : pos 0 ≤ℤ tolerance
  pub states : v.order_state_mismatch ≡ false
  pub fills : v.filled_quantity_mismatch ≡ false
  pub quantities : v.position_quantity_mismatch ≡ false
  pub tickets : v.position_ticket_mismatch ≡ false
  pub orphan_orders : v.has_orphan_order ≡ false
  pub orphans : v.has_orphan ≡ false
  pub orphan_positions : v.has_orphan_position ≡ false
  pub balances : Near tolerance v.engine_balance v.broker_balance
  pub equities : Near tolerance v.engine_equity v.broker_equity
  pub margins : Near tolerance v.engine_margin v.broker_margin
  pub modes : v.margin_mode_mismatch ≡ false
  pub unknowns : v.has_unresolved_unknown ≡ false
  pub orders : v.engine_orders ≡ v.broker_orders
  pub positions : v.engine_positions ≡ v.broker_positions

outside-Near : (t a b : ℤ) → outside t a b ≡ false → pos 0 ≤ℤ t → Near t a b
unfolding outside
outside-Near t a b h n = record {
  above = ground (arith, -ℤ_parts a b, -ℤ_parts b a);
  below = ground (arith, -ℤ_parts a b, -ℤ_parts b a);
}

Near-outside : (t a b : ℤ) → Near t a b → outside t a b ≡ false
unfolding outside
Near-outside t a b n =
    let p = n.above in let q = n.below in ground (arith, -ℤ_parts a b, -ℤ_parts b a)

pass :
    (found : Bool) (kind rest : ReconcileBreak)
    → is_no_break kind ≡ false
    → is_no_break (break_if found kind rest) ≡ true
    → (found ≡ false) × (is_no_break rest ≡ true)
unfolding break_if
pass true kind rest h k = absurd (grind arith)
pass false kind rest h k = (refl, k)

same_count : (a b : ℕ) → not (a == b) ≡ false → a ≡ b
same_count a b h = ground arith

reconciled-Agrees : (v : ReconcileView) (t : ℤ) → reconciled v t ≡ true → Agrees v t
unfolding reconciled reconcile_break
reconciled-Agrees v t h =
    let (tol, h0) = pass _ _ _ refl h in
    let (st, h1) = pass _ _ _ refl h0 in
    let (fi, h2) = pass _ _ _ refl h1 in
    let (qu, h3) = pass _ _ _ refl h2 in
    let (ti, h4) = pass _ _ _ refl h3 in
    let (oo, h5) = pass _ _ _ refl h4 in
    let (op, h6) = pass _ _ _ refl h5 in
    let (ba, h7) = pass _ _ _ refl h6 in
    let (eq, h8) = pass _ _ _ refl h7 in
    let (ma, h9) = pass _ _ _ refl h8 in
    let (mo, h10) = pass _ _ _ refl h9 in
    let (un, h11) = pass _ _ _ refl h10 in
    let (co, h12) = pass _ _ _ refl h11 in
    let (cp, h13) = pass _ _ _ refl h12 in
    let t_ok : pos 0 ≤ℤ t = ground arith in
    record {
      tolerance_ok = t_ok;
      states = st;
      fills = fi;
      quantities = qu;
      tickets = ti;
      orphan_orders = (both_false _ _ oo).0;
      orphans = (both_false _ _ oo).1;
      orphan_positions = op;
      balances = outside-Near t _ _ ba t_ok;
      equities = outside-Near t _ _ eq t_ok;
      margins = outside-Near t _ _ ma t_ok;
      modes = mo;
      unknowns = un;
      orders = same_count _ _ co;
      positions = same_count _ _ cp;
    }

skip :
    (found : Bool) (kind rest : ReconcileBreak)
    → found ≡ false
    → is_no_break rest ≡ true
    → is_no_break (break_if found kind rest) ≡ true
unfolding break_if
skip true kind rest h k = absurd (grind arith)
skip false kind rest h k = k

Agrees-reconciled : (v : ReconcileView) (t : ℤ) → Agrees v t → reconciled v t ≡ true
unfolding reconciled reconcile_break
Agrees-reconciled v t g =
    let tol : ltb_ℤ t (pos 0) ≡ false = (let k = g.tolerance_ok in ground arith) in
    let oo : (v.has_orphan_order || v.has_orphan) ≡ false = rw (g.orphan_orders, g.orphans) refl in
    let co : not (v.engine_orders == v.broker_orders) ≡ false =
      (let k = g.orders in ground arith) in
    let cp : not (v.engine_positions == v.broker_positions) ≡ false =
      (let k = g.positions in ground arith) in
    skip _ _ _ tol (
      skip _ _ _ g.states (
        skip _ _ _ g.fills (
          skip _ _ _ g.quantities (
            skip _ _ _ g.tickets (
              skip _ _ _ oo (
                skip _ _ _ g.orphan_positions (
                  skip _ _ _ (Near-outside t _ _ g.balances) (
                    skip _ _ _ (Near-outside t _ _ g.equities) (
                      skip _ _ _ (Near-outside t _ _ g.margins) (
                        skip _ _ _ g.modes
                          (skip _ _ _ g.unknowns (skip _ _ _ co (skip _ _ _ cp (refl))))))))))))))

-- The two views are reconciled if and only if the tolerance is not negative, nothing is reported as
-- different, orphaned or unknown, balance, equity and margin differ by at most the tolerance, and the
-- numbers of orders and of positions agree.
pub reconciled_iff :
    (v : ReconcileView) (tolerance : ℤ) → (reconciled v tolerance ≡ true) ↔ Agrees v tolerance
reconciled_iff v tolerance = (reconciled-Agrees v tolerance, Agrees-reconciled v tolerance)

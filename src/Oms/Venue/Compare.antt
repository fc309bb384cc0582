-- ===== src/Oms/Venue/Compare.antt =====
-- include/oms/venue_reconciliation.hpp: the comparison of two views of the orders and of the positions.
use market_microstructure_en.Base.{
  ℕ, zero, suc, ◌-◌, Bool, ◌||◌, not, ◌==◌, ltb, leb, if◌then◌else◌, List, [], ◌∷◌, ◌++◌, get_or,
  set, replicate,
}
use market_microstructure_en.Base.Int.{ℤ, pos, neg, ◌+ℤ◌, ◌==ℤ◌}
use market_microstructure_en.Exec.Types.{BrokerOrderRef, ref_eq, buy, sell}
use market_microstructure_en.Exec.Broker.State.{state_code}
use market_microstructure_en.Oms.Venue.{OrderSnapshot, PositionSnapshot}

pub data OrderReconcileStatus : Type 0 where
  matched local_only venue_only state_mismatch volume_mismatch : OrderReconcileStatus

pub record OrderReconcileResult : Type 0 where
  pub ref : BrokerOrderRef
  pub status : OrderReconcileStatus

-- The lambda `by_ref`.
abbrev pub by_ref : OrderSnapshot → OrderSnapshot → Bool
by_ref a b =
    if not (a.ref.run_id == b.ref.run_id)
    then ltb a.ref.run_id b.ref.run_id
    else ltb a.ref.logical_order_id b.ref.logical_order_id

unfoldable pub insert_by_ref : OrderSnapshot → List OrderSnapshot → List OrderSnapshot
insert_by_ref x [] = x ∷ []
insert_by_ref x (y ∷ ys) =
    let rest = insert_by_ref x ys in if by_ref y x then y ∷ rest else x ∷ y ∷ ys

unfoldable pub sort_by_ref : List OrderSnapshot → List OrderSnapshot
unfolding insert_by_ref
sort_by_ref [] = []
sort_by_ref (x ∷ xs) = insert_by_ref x (sort_by_ref xs)

-- The status of two orders with one reference.
unfoldable pub status_of : OrderSnapshot → OrderSnapshot → OrderReconcileStatus
status_of l v =
    if not (state_code l.state == state_code v.state)
    then state_mismatch
    else if not (l.filled_volume ==ℤ v.filled_volume)
        || not (l.requested_volume ==ℤ v.requested_volume)
    then volume_mismatch
    else matched

abbrev pub result_of : OrderSnapshot → OrderReconcileStatus → OrderReconcileResult
result_of x status = record { ref = x.ref; status = status }

-- One round of the merge: its result, and what is left of both views.
unfoldable pub merge_step :
    OrderSnapshot
    → List OrderSnapshot
    → OrderSnapshot
    → List OrderSnapshot
    → OrderReconcileResult × List OrderSnapshot × List OrderSnapshot
unfolding status_of
merge_step l ls v vs =
    if ref_eq l.ref v.ref
    then (result_of l (status_of l v), ls, vs)
    else if by_ref l v
    then (result_of l local_only, ls, v ∷ vs)
    else (result_of v venue_only, l ∷ ls, vs)

-- The three loops of `compare`, on the room left in the buffer.
unfoldable pub merge_views : ℕ → List OrderSnapshot → List OrderSnapshot → List OrderReconcileResult
unfolding merge_step
merge_views zero ls vs = []
merge_views (suc room) [] [] = []
merge_views (suc room) (l ∷ ls) [] = result_of l local_only ∷ merge_views room ls []
merge_views (suc room) [] (v ∷ vs) = result_of v venue_only ∷ merge_views room [] vs
merge_views (suc room) (l ∷ ls) (v ∷ vs) =
    let (result, ls', vs') = merge_step l ls v vs in result ∷ merge_views room ls' vs'

unfoldable pub compare_orders :
    List OrderSnapshot → List OrderSnapshot → ℕ → List OrderReconcileResult
unfolding merge_views sort_by_ref
compare_orders local venue out_capacity =
    merge_views out_capacity (sort_by_ref local) (sort_by_ref venue)

pub record PositionMismatch : Type 0 where
  pub symbol_id : ℕ
  pub local_net_volume : ℤ
  pub venue_net_volume : ℤ

abbrev pub net_symbols : ℕ
net_symbols = 64

-- The first loop of `compare_positions`, which ends at a symbol out of range.
unfoldable pub venue_net : List PositionSnapshot → List ℤ → List ℤ
venue_net [] net = net
venue_net (p ∷ ps) net =
    let signed = elim p.side as (λ _. ℤ) [ buy ↦ p.volume | sell ↦ neg p.volume ] in
    let rest = venue_net ps (set net p.symbol_id (get_or net p.symbol_id (pos 0) +ℤ signed)) in
    if leb net_symbols p.symbol_id then net else rest

-- The second one, from a symbol on.
unfoldable pub mismatches : ℕ → List ℤ → List ℤ → ℕ → List PositionMismatch
mismatches symbol_id [] net room = []
mismatches symbol_id (l ∷ ls) net room =
    let v = get_or net symbol_id (pos 0) in
    let same = l ==ℤ v in
    if leb net_symbols symbol_id || room == 0
    then []
    else (if same
        then []
        else record { symbol_id = symbol_id; local_net_volume = l; venue_net_volume = v } ∷ [])
      ++ mismatches (suc symbol_id) ls net (if same then room else room - 1)

unfoldable pub compare_positions : List PositionSnapshot → List ℤ → ℕ → List PositionMismatch
unfolding venue_net mismatches
compare_positions venue local_net_by_symbol out_capacity =
    mismatches 0 local_net_by_symbol (venue_net venue (replicate net_symbols (pos 0))) out_capacity

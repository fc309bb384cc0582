-- ===== src/Exec/Broker/Final.antt =====
-- The handling of a quote leaves finished orders as they are.
use market_microstructure_en.Base.{
  ℕ, zero, suc, ◌≡◌, ◌≢◌, inl, inr, refl, sym, ap, ◌∙◌, arith, true, ◌==◌, ==_iff, List, [], ◌∷◌,
  map, length, get_or, Bool-cases, get_or-set_ne,
}
use market_microstructure_en.Base.Int.{ℤ, pos}
use market_microstructure_en.Exec.Types.{
  Order, default_order, is_terminal, RejectReason, probabilistic_reject, OrderState, filled,
  partially_filled, acknowledged, expired, rejected,
}
use market_microstructure_en.Exec.Journal.{rejection}
use market_microstructure_en.Exec.Models.{charge_minor}
use market_microstructure_en.Exec.Broker.State.{
  PaperBroker, MarketState, spec_of, market_of, reason_code, order_at, write_order, record_event,
  halt, recompute_account, refresh_account, close_order, transition, finish, release_reservation,
}
use market_microstructure_en.Exec.Broker.Fills.{
  filled_order, charge_commission, book_fill, conclude_fill, apply_fill, fill_at, attempt_fill,
  reject_order, acknowledge_order, process_order, process_from, process, credit_order, credit_queue,
  quoted, on_quote,
}
use market_microstructure_en.Exec.Broker.Positions.{
  settle, reduce_position, open_next, open_and_settle, apply_reduce_only, apply_hedging,
  apply_netting, apply_to_position,
}

halt-orders : (b : PaperBroker) (why : RejectReason) → (halt b why).orders ≡ b.orders
unfolding halt
halt-orders b why = ground arith

recompute_account-orders :
    (b : PaperBroker) (now_ns : ℕ) → (recompute_account b now_ns).orders ≡ b.orders
unfolding recompute_account record_event halt
recompute_account-orders b now_ns = ground arith

refresh_account-orders :
    (b : PaperBroker) (now_ns : ℕ) → (refresh_account b now_ns).orders ≡ b.orders
unfolding refresh_account record_event
refresh_account-orders b now_ns = recompute_account-orders b now_ns

open_next-orders :
    (b : PaperBroker) (order : Order) (volume price : ℤ) (now_ns : ℕ)
    → (open_next b order volume price now_ns).1.orders ≡ b.orders
unfolding open_next halt
open_next-orders b order volume price now_ns = ground arith

open_and_settle-orders :
    (b : PaperBroker) (order : Order) (volume price : ℤ) (now_ns : ℕ)
    → (open_and_settle b order volume price now_ns).orders ≡ b.orders
unfolding open_and_settle settle record_event
open_and_settle-orders b order volume price now_ns =
    ground (arith, open_next-orders b order volume price now_ns)

apply_reduce_only-orders :
    (b : PaperBroker) (order : Order) (price volume : ℤ) (now_ns : ℕ)
    → (apply_reduce_only b order price volume now_ns).orders ≡ b.orders
unfolding apply_reduce_only settle record_event reduce_position halt
apply_reduce_only-orders b order price volume now_ns = ground arith

apply_hedging-orders :
    (b : PaperBroker) (slot : ℕ) (price volume : ℤ) (now_ns : ℕ)
    → (apply_hedging b slot price volume now_ns).orders ≡ b.orders
unfolding apply_hedging settle record_event
apply_hedging-orders b slot price volume now_ns =
    ground (arith, open_next-orders b (order_at b slot) volume price now_ns)

apply_netting-orders :
    (b : PaperBroker) (order : Order) (price volume : ℤ) (now_ns : ℕ)
    → (apply_netting b order price volume now_ns).orders ≡ b.orders
unfolding apply_netting settle record_event reduce_position
apply_netting-orders b order price volume now_ns = grind (arith, open_and_settle-orders)

apply_to_position-orders :
    (b : PaperBroker) (slot : ℕ) (price volume : ℤ) (now_ns : ℕ)
    → (apply_to_position b slot price volume now_ns).orders ≡ b.orders
unfolding apply_to_position
apply_to_position-orders b slot price volume now_ns = ground (
  arith,
  apply_reduce_only-orders b (order_at b slot) price volume now_ns,
  apply_hedging-orders b slot price volume now_ns,
  apply_netting-orders b (order_at b slot) price volume now_ns,
)

-- What each step of an order at one slot shows at another slot.
module _ (slot j : ℕ) (ne : slot ≢ j) where
  transition-others :
      (b : PaperBroker) (next : OrderState) (now_ns : ℕ)
      → order_at (transition b slot next now_ns) j ≡ order_at b j
  unfolding transition record_event
  transition-others b next now_ns =
      get_or-set_ne b.orders slot j (record (order_at b slot) { state = next }) default_order ne

  finish-others :
      (b : PaperBroker) (next : OrderState) (now_ns : ℕ)
      → order_at (finish b slot next now_ns) j ≡ order_at b j
  unfolding finish release_reservation
  finish-others b next now_ns =
      let b1 = transition b slot next now_ns in
      let b2 = write_order b1 slot (record (order_at b1 slot) { ts_terminal_ns = now_ns }) in
      ap (λ os. get_or os j default_order)
        (refresh_account-orders (close_order (release_reservation b2 (order_at b2 slot))) now_ns)
      ∙ get_or-set_ne b1.orders slot j (record (order_at b1 slot) { ts_terminal_ns = now_ns })
          default_order ne
      ∙ transition-others b next now_ns

  book_fill-others :
      (b : PaperBroker) (price volume : ℤ) (now_ns : ℕ)
      → order_at (book_fill b slot price volume now_ns) j ≡ order_at b j
  unfolding book_fill record_event
  book_fill-others b price volume now_ns =
      let order = order_at b slot in
      let commission = charge_minor (spec_of b order.symbol_id) volume in
      let written = filled_order order price volume commission in
      ap (λ os. get_or os j default_order)
        (apply_to_position-orders (charge_commission (write_order b slot written) commission) slot
          price volume now_ns)
      ∙ get_or-set_ne b.orders slot j written default_order ne

  conclude_fill-others :
      (b : PaperBroker) (now_ns : ℕ) → order_at (conclude_fill b slot now_ns) j ≡ order_at b j
  unfolding conclude_fill
  conclude_fill-others b now_ns =
      ground (arith, finish-others b filled now_ns, transition-others b partially_filled now_ns)

  apply_fill-others :
      (b : PaperBroker) (price volume : ℤ) (now_ns : ℕ)
      → order_at (apply_fill b slot price volume now_ns) j ≡ order_at b j
  unfolding apply_fill
  apply_fill-others b price volume now_ns =
      let booked = book_fill b slot price volume now_ns in
      ap (λ os. get_or os j default_order)
        (refresh_account-orders (conclude_fill booked slot now_ns) now_ns)
      ∙ conclude_fill-others booked now_ns
      ∙ book_fill-others b price volume now_ns

  fill_at-others :
      (b : PaperBroker) (m : MarketState) (price available : ℤ) (now_ns : ℕ)
      → order_at (fill_at b slot m price available now_ns) j ≡ order_at b j
  unfolding fill_at halt
  fill_at-others b m price available now_ns = grind (arith, apply_fill-others)

  attempt_fill-others :
      (b : PaperBroker) (now_ns : ℕ) → order_at (attempt_fill b slot now_ns) j ≡ order_at b j
  unfolding attempt_fill
  attempt_fill-others b now_ns = grind (arith, fill_at-others)

  reject_order-others :
      (b : PaperBroker) (now_ns : ℕ) → order_at (reject_order b slot now_ns) j ≡ order_at b j
  unfolding reject_order record_event
  reject_order-others b now_ns =
      let order = order_at b slot in
      finish-others
        (record_event b rejection now_ns order.ref.logical_order_id order.symbol_id 0
          (pos (reason_code probabilistic_reject)) (pos 0) (pos 0) (pos 0))
        rejected now_ns

  acknowledge_order-others :
      (b : PaperBroker) (now_ns : ℕ) → order_at (acknowledge_order b slot now_ns) j ≡ order_at b j
  unfolding acknowledge_order record_event
  acknowledge_order-others b now_ns = transition-others b acknowledged now_ns

  process_order-others :
      (b : PaperBroker) (now_ns : ℕ) → order_at (process_order b slot now_ns) j ≡ order_at b j
  unfolding process_order
  process_order-others b now_ns = ground (
    arith,
    finish-others b expired now_ns,
    attempt_fill-others b now_ns,
    reject_order-others b now_ns,
    attempt_fill-others (acknowledge_order b slot now_ns) now_ns
        ∙ acknowledge_order-others b now_ns,
  )

process_order_terminal :
    (b : PaperBroker) (slot : ℕ) (now_ns : ℕ)
    → is_terminal (order_at b slot).state ≡ true
    → process_order b slot now_ns ≡ b
unfolding process_order
process_order_terminal b slot now_ns h = rw (process_order, h) refl

process_order-keeps :
    (b : PaperBroker) (slot j : ℕ) (now_ns : ℕ)
    → is_terminal (order_at b j).state ≡ true
    → order_at (process_order b slot now_ns) j ≡ order_at b j
process_order-keeps b slot j now_ns h = elim (Bool-cases (slot == j)) [
  | inr e ↦ process_order-others slot j (ground arith) b now_ns
  | inl e ↦
      let same : slot ≡ j = (==_iff slot j).0 e in
      ap (λ b'. order_at b' j) (process_order_terminal b slot now_ns (rw same h))
]

process_from-keeps :
    (left : ℕ) (b : PaperBroker) (slot j : ℕ) (now_ns : ℕ)
    → is_terminal (order_at b j).state ≡ true
    → order_at (process_from b slot left now_ns) j ≡ order_at b j
unfolding process_from
process_from-keeps zero b slot j now_ns h = refl
process_from-keeps (suc left) b slot j now_ns h =
    let e = process_order-keeps b slot j now_ns h in
    process_from-keeps left (process_order b slot now_ns) (suc slot) j now_ns (rw e h) ∙ e

process-keeps :
    (b : PaperBroker) (j now_ns : ℕ)
    → is_terminal (order_at b j).state ≡ true
    → order_at (process b now_ns) j ≡ order_at b j
unfolding process
process-keeps b j now_ns h = ground (arith, process_from-keeps (length b.orders) b 0 j now_ns h)

get_or-map :
    (f : Order → Order) (os : List Order) (j : ℕ)
    → f default_order ≡ default_order
    → get_or (map f os) j default_order ≡ f (get_or os j default_order)
get_or-map f [] j h = sym h
get_or-map f (o ∷ os) zero h = refl
get_or-map f (o ∷ os) (suc j) h = get_or-map f os j h

credit_order_terminal :
    (run_seed symbol_id : ℕ) (m : MarketState) (bid ask bid_size ask_size : ℤ) (o : Order)
    → is_terminal o.state ≡ true
    → credit_order run_seed symbol_id m bid ask bid_size ask_size o ≡ o
unfolding credit_order
credit_order_terminal run_seed symbol_id m bid ask bid_size ask_size o h = ground arith

credit_order_default :
    (run_seed symbol_id : ℕ) (m : MarketState) (bid ask bid_size ask_size : ℤ)
    → credit_order run_seed symbol_id m bid ask bid_size ask_size default_order ≡ default_order
unfolding credit_order
credit_order_default run_seed symbol_id m bid ask bid_size ask_size = ground arith

credit_queue-keeps :
    (b : PaperBroker) (symbol_id : ℕ) (m : MarketState) (bid ask bid_size ask_size : ℤ) (j : ℕ)
    → is_terminal (order_at b j).state ≡ true
    → order_at (credit_queue b symbol_id m bid ask bid_size ask_size) j ≡ order_at b j
unfolding credit_queue
credit_queue-keeps b symbol_id m bid ask bid_size ask_size j h =
    let seed = b.config.run_seed in
    ground (
      arith,
      get_or-map (credit_order seed symbol_id m bid ask bid_size ask_size) b.orders j
            (credit_order_default seed symbol_id m bid ask bid_size ask_size)
          ∙ credit_order_terminal seed symbol_id m bid ask bid_size ask_size (order_at b j) h,
    )

-- A finished order stays exactly as it is, through any quote and all the work that it starts on the other
-- orders.
pub on_quote-final :
    (b : PaperBroker) (symbol_id : ℕ) (bid ask bid_size ask_size : ℤ) (ts_ns j : ℕ)
    → is_terminal (order_at b j).state ≡ true
    → order_at (on_quote b symbol_id bid ask bid_size ask_size ts_ns) j ≡ order_at b j
unfolding on_quote
on_quote-final b symbol_id bid ask bid_size ask_size ts_ns j h =
    let credited = credit_queue b symbol_id (market_of b symbol_id) bid ask bid_size ask_size in
    let q = quoted credited symbol_id bid ask bid_size ask_size ts_ns in
    let e = credit_queue-keeps b symbol_id (market_of b symbol_id) bid ask bid_size ask_size j h in
    let worked : order_at (recompute_account (process q ts_ns) ts_ns) j ≡ order_at b j =
      ap (λ os. get_or os j default_order) (recompute_account-orders (process q ts_ns) ts_ns)
      ∙ process-keeps q j ts_ns (rw e h)
      ∙ e in
    ground (arith, worked)

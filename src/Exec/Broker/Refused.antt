-- ===== src/Exec/Broker/Refused.antt =====
-- Submissions that the broker refuses, and the slots that they take.
use market_microstructure_en.Base.{
  ℕ, zero, suc, ◌+◌, ◌<◌, ◌≡◌, ◌⊎◌, inl, inr, refl, sym, ◌∙◌, arith, true, false, leb, List, [],
  ◌∷◌, ◌++◌, length, length-append, none, some, Bool-cases, Option-cases,
}
use market_microstructure_en.Exec.Types.{
  RejectReason, corrupted_state, default_order, Order, is_terminal,
}
use market_microstructure_en.Exec.Broker.State.{
  PaperBroker, record_event, has_seen, max_live_orders,
}
use market_microstructure_en.Exec.Broker.Entry.{
  OrderRequest, SubmitResult, refuse, request_check, quote_check, reduce_check, request_ref,
  reducible_volume, order_margin, take_slot, terminal_slot, accept, submit,
}

-- What a refusal leaves as it was, and the slot that it may take.
pub record Unreserved (b b' : PaperBroker) : Type 0 where
  pub same_account : b'.account ≡ b.account
  pub same_book : b'.book ≡ b.book
  pub same_seen : b'.seen ≡ b.seen
  pub same_reserved : b'.reserved_margin_minor ≡ b.reserved_margin_minor
  pub same_time : b'.last_submit_ns ≡ b.last_submit_ns
  pub same_orders : (b'.orders ≡ b.orders) ⊎ (b'.orders ≡ b.orders ++ (default_order ∷ []))

refuse-Unreserved :
    (b : PaperBroker) (r : OrderRequest) (why : RejectReason) (now_ns : ℕ)
    → Unreserved b (refuse b r why now_ns).1
unfolding refuse record_event
refuse-Unreserved b r why now_ns = record {
  same_account = refl;
  same_book = refl;
  same_seen = refl;
  same_reserved = refl;
  same_time = refl;
  same_orders = inl refl;
}

-- The broker with one more slot.
abbrev grown : PaperBroker → PaperBroker
grown b = record b { orders = b.orders ++ (default_order ∷ []) }

refuse-grown :
    (b : PaperBroker) (r : OrderRequest) (why : RejectReason) (now_ns : ℕ)
    → Unreserved b (refuse (grown b) r why now_ns).1
unfolding refuse record_event
refuse-grown b r why now_ns = record {
  same_account = refl;
  same_book = refl;
  same_seen = refl;
  same_reserved = refl;
  same_time = refl;
  same_orders = inr refl;
}

accept-accepted :
    (b : PaperBroker) (r : OrderRequest) (slot now_ns : ℕ)
    → (accept b r slot now_ns).0.accepted ≡ true
unfolding accept
accept-accepted b r slot now_ns = refl

-- `submit` once a slot is taken.
abbrev submit_at : PaperBroker → OrderRequest → ℕ → ℕ → SubmitResult × PaperBroker
submit_at b r slot now_ns = elim (quote_check b r now_ns) [
  | some why ↦ refuse b r why now_ns
  | none ↦ accept b r slot now_ns
]

submit_at-refused :
    (b : PaperBroker) (r : OrderRequest) (slot now_ns : ℕ)
    → (submit_at b r slot now_ns).0.accepted ≡ false
    → (why : RejectReason) × (submit_at b r slot now_ns ≡ refuse b r why now_ns)
submit_at-refused b r slot now_ns h = elim (Option-cases (quote_check b r now_ns)) [
  | inr (why, e) ↦ (why, rw (submit_at, e) refl)
  | inl e ↦ absurd (grind (arith, accept-accepted b r slot now_ns))
]

-- The two places that `take_slot` finds.
take_slot_cases :
    (b : PaperBroker) (r : OrderRequest) (now_ns : ℕ)
    → request_check b r now_ns ≡ none
    → (submit b r now_ns ≡ refuse b r corrupted_state now_ns)
      ⊎ (((slot : ℕ) × (submit b r now_ns ≡ submit_at b r slot now_ns))
          ⊎ (submit b r now_ns ≡ submit_at (grown b) r (length b.orders) now_ns))
unfolding submit take_slot
take_slot_cases b r now_ns h = elim (Option-cases (terminal_slot b.orders)) [
  | inr (slot, e) ↦ inr (inl (slot, rw (submit, h) (rw (take_slot, e) refl)))
  | inl e ↦ elim (Bool-cases (leb max_live_orders (length b.orders))) [
    | inl full ↦ inl (rw (submit, h) (rw (take_slot, e) (rw full refl)))
    | inr room ↦ inr (inr (rw (submit, h) (rw (take_slot, e) (rw room refl))))
  ]
]

checked-refused :
    (b : PaperBroker) (r : OrderRequest) (now_ns : ℕ) (why : RejectReason)
    → request_check b r now_ns ≡ some why
    → submit b r now_ns ≡ refuse b r why now_ns
unfolding submit
checked-refused b r now_ns why e = rw (submit, e) refl

-- A submission that is refused, for whatever reason, changes neither the account nor the positions, reserves
-- no margin, and neither remembers the reference nor moves the clock; its orders are those that
-- there were, with at most one empty slot behind them.
pub submit_refused :
    (b : PaperBroker) (r : OrderRequest) (now_ns : ℕ)
    → (submit b r now_ns).0.accepted ≡ false
    → Unreserved b (submit b r now_ns).1
submit_refused b r now_ns h = elim (Option-cases (request_check b r now_ns)) [
  | inr (why, e) ↦ rw (checked-refused b r now_ns why e) (refuse-Unreserved b r why now_ns)
  | inl e ↦ elim (take_slot_cases b r now_ns e) [
    | inl q ↦ rw q (refuse-Unreserved b r corrupted_state now_ns)
    | inr (inl (slot, q)) ↦
        let (why, p) = submit_at-refused b r slot now_ns (rw (sym q) h) in
        rw (q ∙ p) (refuse-Unreserved b r why now_ns)
    | inr (inr q) ↦
        let (why, p) = submit_at-refused (grown b) r (length b.orders) now_ns (rw (sym q) h) in
        rw (q ∙ p) (refuse-grown b r why now_ns)
  ]
]

-- The broker after a request was submitted so many times at one time.
unfoldable pub submit_times : ℕ → PaperBroker → OrderRequest → ℕ → PaperBroker
submit_times zero b r now_ns = b
submit_times (suc n) b r now_ns = submit_times n (submit b r now_ns).1 r now_ns

terminal_slot-grown :
    (os : List Order) → terminal_slot os ≡ none → terminal_slot (os ++ (default_order ∷ [])) ≡ none
unfolding terminal_slot
terminal_slot-grown [] h = refl
terminal_slot-grown (o ∷ os) h = elim (Bool-cases (is_terminal o.state)) [
  | inl e ↦ absurd (grind arith)
  | inr e ↦ elim (Option-cases (terminal_slot os)) [
    | inl q ↦ rw e (rw (terminal_slot-grown os q) refl)
    | inr (i, q) ↦ absurd (grind arith)
  ]
]

-- A request that passes the first checks and fails the later ones, with room for a slot.
leaks :
    (b : PaperBroker) (r : OrderRequest) (now_ns : ℕ) (why : RejectReason)
    → request_check b r now_ns ≡ none
    → quote_check b r now_ns ≡ some why
    → terminal_slot b.orders ≡ none
    → length b.orders < max_live_orders
    → submit b r now_ns ≡ refuse (grown b) r why now_ns
unfolding submit take_slot
leaks b r now_ns why h q t room = rw (submit, h) (rw (take_slot, t) (rw room_found (rw later refl)))
  where
    room_found : leb max_live_orders (length b.orders) ≡ false
    room_found = ground arith

    later : quote_check (grown b) r now_ns ≡ some why
    later = q

full_refuses :
    (b : PaperBroker) (r : OrderRequest) (now_ns : ℕ)
    → request_check b r now_ns ≡ none
    → terminal_slot b.orders ≡ none
    → length b.orders ≡ max_live_orders
    → submit b r now_ns ≡ refuse b r corrupted_state now_ns
unfolding submit take_slot
full_refuses b r now_ns h t full = rw (submit, h) (rw (take_slot, t) (rw full_found refl))
  where
    full_found : leb max_live_orders (length b.orders) ≡ true
    full_found = ground arith

request_check-refuse :
    (b : PaperBroker) (r r' : OrderRequest) (now_ns : ℕ) (why : RejectReason)
    → request_check (refuse (grown b) r why now_ns).1 r' now_ns ≡ request_check b r' now_ns
unfolding request_check refuse record_event has_seen reduce_check request_ref reducible_volume
request_check-refuse b r r' now_ns why = refl

quote_check-refuse :
    (b : PaperBroker) (r : OrderRequest) (now_ns : ℕ) (why : RejectReason)
    → quote_check (refuse (grown b) r why now_ns).1 r now_ns ≡ quote_check b r now_ns
unfolding quote_check refuse record_event order_margin
quote_check-refuse b r now_ns why = refl

orders-refuse :
    (b : PaperBroker) (r : OrderRequest) (now_ns : ℕ) (why : RejectReason)
    → (refuse b r why now_ns).1.orders ≡ b.orders
unfolding refuse record_event
orders-refuse b r now_ns why = refl

-- Where no slot holds a finished order: a request that passes the first checks and fails those of the quote
-- or of the margin takes a slot each time that it is submitted, and once it has taken all that
-- are free, any other request that passes the first checks is refused with corrupted_state.
pub slots_leak :
    (n : ℕ) (b : PaperBroker) (r r' : OrderRequest) (now_ns : ℕ) (why : RejectReason)
    → request_check b r now_ns ≡ none
    → quote_check b r now_ns ≡ some why
    → terminal_slot b.orders ≡ none
    → n + length b.orders ≡ max_live_orders
    → request_check b r' now_ns ≡ none
    → (submit (submit_times n b r now_ns) r' now_ns).0.reason ≡ corrupted_state
unfolding submit_times refuse
slots_leak zero b r r' now_ns why h q t e h' =
    rw (full_refuses b r' now_ns h' t (omega (arith, e))) refl
slots_leak (suc n) b r r' now_ns why h q t e h' =
    rw (leaks b r now_ns why h q t (omega (arith, e))) (
      slots_leak n (refuse (grown b) r why now_ns).1 r r' now_ns why
        (request_check-refuse b r r now_ns why ∙ h) (quote_check-refuse b r now_ns why ∙ q)
        (rw (orders-refuse (grown b) r now_ns why) (terminal_slot-grown b.orders t))
        (rw (orders-refuse (grown b) r now_ns why)
          (omega (arith, e, length-append b.orders (default_order ∷ []))))
        (request_check-refuse b r r' now_ns why ∙ h'))

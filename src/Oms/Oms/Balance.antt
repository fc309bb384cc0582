-- ===== src/Oms/Oms/Balance.antt =====
-- Every call of the store's interface keeps `reserved_` equal to what the live orders reserve.
use market_microstructure_en.Base.{
  ℕ, ◌+◌, ◌-◌, ◌≤◌, ◌<◌, ◌≡◌, refl, ap, arith, ◌==◌, true, false, List, [], ◌∷◌, get_or, set,
  length, Bool-cases, inl, inr, get_or-set_self,
}
use market_microstructure_en.Base.Int.{ℤ, pos}
use market_microstructure_en.Base.Words.{u32_mod}
use market_microstructure_en.Exec.Types.{
  BrokerOrderRef, Order, default_order, OrderState, is_terminal, reserves_exposure, unknown,
}
use market_microstructure_en.Oms.OrderState.{legal}
use market_microstructure_en.Oms.Index.Indexed.{key}
use market_microstructure_en.Oms.Oms.{
  Oms, make, order_at, write, rehash, rehash_if_worn, erase_entry, shrink, append_order, swap_last,
  reclaim, mark_state, reclaim_if, change_state, transition, fill, mark_unknown_on_restart,
  add_fill,
}
use market_microstructure_en.Oms.Oms.Inv.{Inv}
use market_microstructure_en.Base.Int.{int_laws}
use market_microstructure_en.Oms.Oms.Inv.{reservation, total_reserved}
use market_microstructure_en.Oms.Oms.Keep.{swap_remove, orders-reclaim}
use market_microstructure_en.Oms.Oms.Steps.{
  transition_cases, created, create_cases, restore_cases, booked, fill_cases, length-mark_state,
  recover_fill_cases, resolve_unknown_cases, mark_unknown_cases, Call, creates, restores,
  transitions, fills, recovers_fill, marks_unknown, resolves, step, run, change_state-Inv,
}
use market_microstructure_en.Oms.Oms.Keep.{write-Inv, order_at-ref}
use market_microstructure_en.Oms.Oms.Steps.{with_order-Inv, restored-Inv}
use market_microstructure_en.Oms.Oms.Inv.{make-Inv}
use market_microstructure_en.Base.{All, All-append, All-set, All-take, All-get_or}
use market_microstructure_en.Exec.Types.{is_new}
use market_microstructure_en.Oms.Oms.Reserved.{
  Balanced, make-Balanced, with_order-Balanced, restored-Balanced, write-Balanced, total-set,
  total-swap_remove,
}

-- No live order is still in state new_order, from which no reservation is made.
abbrev pub Started : Order → Type 0
Started x = is_new x.state ≡ false

-- The store is consistent: index, total and states.
pub record IsSound (o : Oms) : Type 0 where
  pub inv : Inv o
  pub balanced : Balanced o
  pub started : All Started o.orders

legal-Started : (a b : OrderState) → legal a b ≡ true → is_new b ≡ false
unfolding legal
legal-Started a b h = ground arith

swap_remove-Started :
    (xs : List Order) (s : ℕ) → 0 < length xs → All Started xs → All Started (swap_remove xs s)
unfolding swap_remove
swap_remove-Started xs s h a = elim (Bool-cases (s == (length xs - 1))) [
  | inl e ↦ rw e (All-take Started (length xs - 1) xs a)
  | inr e ↦ rw e (
      All-take Started (length xs - 1) (set xs s last)
        (All-set Started xs s last (All-get_or Started xs _ default_order (omega arith) a) a))
]
  where
    last : Order
    last = get_or xs (length xs - 1) default_order

order_at-Started :
    (o : Oms) (s : ℕ) → s < length o.orders → All Started o.orders → Started (order_at o s)
unfolding order_at
order_at-Started o s h a = All-get_or Started o.orders s default_order h a

legal-reserves :
    (a b : OrderState) → legal a b ≡ true → is_new a ≡ false → reserves_exposure a ≡ true
unfolding legal
legal-reserves a b h n = ground arith

-- A change of state moves the total by what the order held before and holds after.
mark_state-Balanced :
    (o : Oms) (s : ℕ) (next : OrderState)
    → s < length o.orders
    → reserves_exposure (order_at o s).state ≡ true
    → Balanced o
    → (mark_state o s next).reserved ≡ total_reserved (mark_state o s next).orders
unfolding mark_state write reservation order_at
mark_state-Balanced o s next h old b =
    rw (total-set o.orders s (record (order_at o s) { state = next }) h, b, old)
      (elim (Bool-cases (reserves_exposure next)) [
        | inl e ↦ rw e (omega int_laws)
        | inr e ↦ rw e (omega int_laws)
      ])

mark_state-Started :
    (o : Oms) (s : ℕ) (next : OrderState)
    → is_new next ≡ false
    → All Started o.orders
    → All Started (mark_state o s next).orders
unfolding mark_state write
mark_state-Started o s next n a =
    All-set Started o.orders s (record (order_at o s) { state = next }) n a

reclaim-reserved : (o : Oms) (s : ℕ) → (reclaim o s).reserved ≡ o.reserved
unfolding reclaim rehash_if_worn rehash shrink swap_last erase_entry
reclaim-reserved o s = ground arith

-- An order that holds nothing can be reclaimed.
reclaim-Balanced :
    (o : Oms) (s : ℕ)
    → s < length o.orders
    → reservation (order_at o s) ≡ pos 0
    → Balanced o
    → (reclaim o s).reserved ≡ total_reserved (reclaim o s).orders
unfolding order_at
reclaim-Balanced o s h z b =
    rw (orders-reclaim o s, reclaim-reserved o s, total-swap_remove o.orders s h, z, b)
      (omega int_laws)

mark_state-state :
    (o : Oms) (s : ℕ) (next : OrderState)
    → s < length o.orders
    → (order_at (mark_state o s next) s).state ≡ next
unfolding mark_state write order_at
mark_state-state o s next h =
    ap (λ (x : Order). x.state) (get_or-set_self o.orders s _ default_order h)

change_state-IsSound :
    (o : Oms) (s : ℕ) (next : OrderState)
    → s < length o.orders
    → legal (order_at o s).state next ≡ true
    → IsSound o
    → IsSound (change_state o s next)
unfolding change_state reclaim_if reservation
change_state-IsSound o s next h ok v = record {
  inv = change_state-Inv o s next h v.inv;
  balanced = elim (Bool-cases (is_terminal next)) [
    | inl e ↦ rw e (reclaim-Balanced m s hm (rw (mark_state-state o s next h, e)) marked)
    | inr e ↦ rw e marked
  ];
  started = elim (Bool-cases (is_terminal next)) [
    | inl e ↦ rw (e, orders-reclaim m s) (swap_remove-Started m.orders s (omega (arith, hm)) all)
    | inr e ↦ rw e all
  ];
}
  where
    m : Oms
    m = mark_state o s next

    hm : s < length m.orders
    hm = omega (arith, length-mark_state o s next)

    old : is_new (order_at o s).state ≡ false
    old = order_at-Started o s h v.started

    marked : Balanced m
    marked =
        mark_state-Balanced o s next h (legal-reserves (order_at o s).state next ok old) v.balanced

    all : All Started m.orders
    all = mark_state-Started o s next (legal-Started (order_at o s).state next ok) v.started

transition-IsSound :
    (o : Oms) (ref : BrokerOrderRef) (next : OrderState)
    → IsSound o
    → IsSound (transition o ref next).1
transition-IsSound o ref next v =
    transition_cases (λ r. IsSound r.1) o ref next v.inv v
      (λ s h _ ok. change_state-IsSound o s next h ok v)

write-IsSound :
    (o : Oms) (s : ℕ) (x : Order)
    → s < length o.orders
    → x.ref ≡ key o.orders s
    → reservation x ≡ reservation (order_at o s)
    → Started x
    → IsSound o
    → IsSound (write o s x)
unfolding write
write-IsSound o s x h k e n v = record {
  inv = write-Inv o s x h k v.inv;
  balanced = write-Balanced o s x h e v.balanced;
  started = All-set Started o.orders s x n v.started;
}

booked-IsSound :
    (o : Oms) (s : ℕ) (volume : ℤ) → s < length o.orders → IsSound o → IsSound (booked o s volume)
unfolding add_fill reservation
booked-IsSound o s volume h v =
    write-IsSound o s (add_fill (order_at o s) volume) h (order_at-ref o s) refl
      (order_at-Started o s h v.started) v

fill-IsSound :
    (o : Oms) (ref : BrokerOrderRef) (volume : ℤ) → IsSound o → IsSound (fill o ref volume).1
fill-IsSound o ref volume v =
    fill_cases (λ r. IsSound r.1) o ref volume v.inv v
      (λ s h _ _. transition-IsSound (booked o s volume) ref _ (booked-IsSound o s volume h v))

started-reserves :
    (a : OrderState) → is_new a ≡ false → is_terminal a ≡ false → reserves_exposure a ≡ true
started-reserves a n t = ground arith

mark_unknown-IsSound :
    (o : Oms) (ref : BrokerOrderRef) → IsSound o → IsSound (mark_unknown_on_restart o ref).1
unfolding reservation
mark_unknown-IsSound o ref v =
    mark_unknown_cases (λ r. IsSound r.1) o ref v.inv v
      (λ s h _ live.
        write-IsSound o s (record (order_at o s) { state = unknown }) h (order_at-ref o s)
          (rw (started-reserves (order_at o s).state (order_at-Started o s h v.started) live)) refl
          v)

with_order-IsSound :
    (o : Oms) (x : Order) (reserved : ℤ)
    → Inv (record (append_order o x) { reserved = reserved })
    → Balanced (record (append_order o x) { reserved = reserved })
    → Started x
    → IsSound o
    → IsSound (record (append_order o x) { reserved = reserved })
unfolding append_order
with_order-IsSound o x reserved i b n v = record {
  inv = i;
  balanced = b;
  started = All-append Started o.orders (x ∷ []) v.started (n, tt);
}

-- What the callers restore: an order that has been sent.
abbrev pub Admissible : Call → Type 0
Admissible (restores order) = Started order
Admissible _ = Unit

-- Every call keeps the store sound.
pub step-IsSound : (o : Oms) (c : Call) → Admissible c → IsSound o → IsSound (step o c).1
unfolding step reservation
step-IsSound o (creates ref symbol volume) _ v =
    create_cases (λ r. IsSound r.1) o ref symbol volume v.inv v
      (λ room fresh.
        let x : Order = created ref symbol volume in
        with_order-IsSound o x _ (with_order-Inv o x volume v.inv room fresh)
          (with_order-Balanced o x v.balanced) refl v)
step-IsSound o (restores order) n v =
    restore_cases (λ r. IsSound r.1) o order v.inv v
      (λ room fresh _.
        with_order-IsSound o order _ (restored-Inv o order v.inv room fresh)
          (restored-Balanced o order v.balanced) n v)
step-IsSound o (transitions ref next) _ v = transition-IsSound o ref next v
step-IsSound o (fills ref volume) _ v = fill-IsSound o ref volume v
step-IsSound o (recovers_fill ref volume) _ v =
    recover_fill_cases (λ r. IsSound r.1) o ref volume v.inv v
      (λ s h _ _. booked-IsSound o s volume h v)
step-IsSound o (marks_unknown ref) _ v = mark_unknown-IsSound o ref v
step-IsSound o (resolves ref terminal) _ v =
    resolve_unknown_cases (λ r. IsSound r.1) o ref terminal v.inv v
      (λ _. transition-IsSound o ref terminal v)

-- A store that started empty stays sound through any sequence of calls.
pub run-IsSound : (o : Oms) (cs : List Call) → All Admissible cs → IsSound o → IsSound (run o cs)
unfolding run
run-IsSound o [] _ v = v
run-IsSound o (c ∷ cs) a v = run-IsSound (step o c).1 cs a.1 (step-IsSound o c a.0 v)

make-IsSound : (capacity : ℕ) → capacity + 2 ≤ u32_mod → IsSound (make capacity)
unfolding make
make-IsSound capacity h = record {
  inv = make-Inv capacity h;
  balanced = make-Balanced capacity;
  started = tt;
}

-- Through any sequence of calls on a new store, in which restored orders have been sent, the running
-- total `reserved_` is the sum of the requested volumes of the live orders.
pub reserved-run :
    (capacity : ℕ) (cs : List Call)
    → capacity + 2 ≤ u32_mod
    → All Admissible cs
    → (run (make capacity) cs).reserved ≡ total_reserved (run (make capacity) cs).orders
reserved-run capacity cs h a = (run-IsSound (make capacity) cs a (make-IsSound capacity h)).balanced

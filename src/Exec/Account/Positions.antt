-- ===== src/Exec/Account/Positions.antt =====
-- What opening a position does to the position book.
use mathlib.Core.Path.{subst}
use market_microstructure_en.Base.{
  ℕ, suc, ◌≤◌, ◌<◌, ◌≡◌, ◌↔◌, refl, sym, ap, arith, true, false, not, ◌&&◌, ◌||◌, ◌==◌, leb,
  if◌then◌else◌, List, [], ◌∷◌, ◌++◌, length, set, none, some, Bool-cases, Option-cases,
  length-append, length-set, ==_iff, inl, inr,
}
use market_microstructure_en.Base.Int.{ℤ, pos, ◌+ℤ◌, int_laws}
use market_microstructure_en.Exec.Account.{
  Position, is_closed, PositionBook, max_positions, closed_slot, place, count_open, open_count,
  net_step, net_loop, net_volume, find_ticket, find_position, signed_volume, opened, open_ticket,
}
use market_microstructure_en.Exec.Types.{Side}

-- Without a closed slot every position counts; with one, fewer do than there are slots.
closed_slot-none : (ps : List Position) → closed_slot ps ≡ none → count_open ps ≡ length ps
unfolding closed_slot count_open
closed_slot-none [] h = refl
closed_slot-none (p ∷ ps) h = elim (Bool-cases (is_closed p.state)) [
  | inl c ↦ absurd (grind arith)
  | inr c ↦ elim (Option-cases (closed_slot ps)) [
    | inl e ↦ rw c (ap suc (closed_slot-none ps e))
    | inr (i, e) ↦ absurd (grind arith)
  ]
]

count_open-le : (ps : List Position) → count_open ps ≤ length ps
unfolding count_open
count_open-le [] = omega arith
count_open-le (p ∷ ps) = ground (arith, count_open-le ps)

closed_slot-some :
    (ps : List Position) (i : ℕ) → closed_slot ps ≡ some i → count_open ps < length ps
unfolding closed_slot count_open
closed_slot-some [] i h = absurd (grind arith)
closed_slot-some (p ∷ ps) i h = elim (Bool-cases (is_closed p.state)) [
  | inl c ↦ rw c (omega (arith, count_open-le ps))
  | inr c ↦ elim (Option-cases (closed_slot ps)) [
    | inl e ↦ absurd (grind arith)
    | inr (j, e) ↦ rw c (omega (arith, closed_slot-some ps j e))
  ]
]

add_swap : (a b c : ℤ) → a +ℤ b +ℤ c ≡ a +ℤ c +ℤ b
add_swap a b c = omega int_laws

net_step_shift :
    (s : ℕ) (net d : ℤ) (p : Position) → net_step s (net +ℤ d) p ≡ net_step s net p +ℤ d
unfolding net_step
net_step_shift s net d p = elim (Bool-cases (not (p.symbol_id == s) || is_closed p.state)) [
  | inl e ↦ rw e refl
  | inr e ↦ rw e (add_swap net d _)
]

net_loop_shift :
    (s : ℕ) (net d : ℤ) (ps : List Position) → net_loop s (net +ℤ d) ps ≡ net_loop s net ps +ℤ d
unfolding net_loop
net_loop_shift s net d [] = refl
net_loop_shift s net d (p ∷ ps) =
    rw (net_step_shift s net d p) (net_loop_shift s (net_step s net p) d ps)

closed_step : (s : ℕ) (net : ℤ) (p : Position) → is_closed p.state ≡ true → net_step s net p ≡ net
unfolding net_step
closed_step s net p c = elim (Bool-cases (p.symbol_id == s)) [
  | inl e ↦ rw (e, c) refl
  | inr e ↦ rw e refl
]

net_loop-set :
    (s : ℕ) (net : ℤ) (d : ℤ) (ps : List Position) (i : ℕ) (q : Position)
    → ((a : ℤ) → net_step s a q ≡ a +ℤ d)
    → closed_slot ps ≡ some i
    → net_loop s net (set ps i q) ≡ net_loop s net ps +ℤ d
unfolding net_loop closed_slot
net_loop-set s net d [] i q step h = absurd (grind arith)
net_loop-set s net d (p ∷ ps) i q step h = elim (Bool-cases (is_closed p.state)) [
  | inl c ↦
      let first : i ≡ 0 = grind arith in
      rw (first, set, net_loop, step net, closed_step s net p c) (net_loop_shift s net d ps)
  | inr c ↦ elim (Option-cases (closed_slot ps)) [
    | inl e ↦ absurd (grind arith)
    | inr (j, e) ↦
        let later : i ≡ suc j = grind arith in
        rw later (net_loop-set s (net_step s net p) d ps j q step e)
  ]
]

net_loop-append :
    (s : ℕ) (net : ℤ) (d : ℤ) (ps : List Position) (q : Position)
    → ((a : ℤ) → net_step s a q ≡ a +ℤ d)
    → net_loop s net (ps ++ (q ∷ [])) ≡ net_loop s net ps +ℤ d
unfolding net_loop
net_loop-append s net d [] q step = step net
net_loop-append s net d (p ∷ ps) q step = net_loop-append s (net_step s net p) d ps q step

absent_rest :
    (p : Position) (ps : List Position) (t : ℕ)
    → find_ticket t (p ∷ ps) ≡ none
    → find_ticket t ps ≡ none
unfolding find_ticket
absent_rest p ps t h = elim (Option-cases (find_ticket t ps)) [
  | inl e ↦ e
  | inr (j, e) ↦ absurd (ground arith)
]

absent_head :
    (p : Position) (ps : List Position) (t : ℕ)
    → find_ticket t (p ∷ ps) ≡ none
    → (p.position_ticket == t && not (is_closed p.state)) ≡ false
unfolding find_ticket
absent_head p ps t h = elim (Bool-cases (p.position_ticket == t && not (is_closed p.state))) [
  | inl e ↦ absurd (grind arith)
  | inr e ↦ e
]

-- Behind a position that stays, the entry of a new ticket is found one place later.
find_ticket_behind :
    (p : Position) (ps qs : List Position) (j t new : ℕ)
    → find_ticket new (p ∷ ps) ≡ none
    → find_ticket t qs ≡ (if new == t then some j else find_ticket t ps)
    → find_ticket t (p ∷ qs) ≡ (if new == t then some (suc j) else find_ticket t (p ∷ ps))
unfolding find_ticket
find_ticket_behind p ps qs j t new absent h = elim (Bool-cases (new == t)) [
  | inl e ↦
      let same : new ≡ t = (==_iff new t).0 e in
      let here = absent_head p ps t (subst (λ x. find_ticket x (p ∷ ps) ≡ none) same absent) in
      rw (h, e, here) refl
  | inr e ↦ rw (h, e) refl
]

find_ticket-set :
    (ps : List Position) (i t : ℕ) (q : Position)
    → closed_slot ps ≡ some i
    → is_closed q.state ≡ false
    → find_ticket q.position_ticket ps ≡ none
    → find_ticket t (set ps i q) ≡ (if q.position_ticket == t then some i else find_ticket t ps)
unfolding closed_slot find_ticket
find_ticket-set [] i t q h live new = absurd (grind arith)
find_ticket-set (p ∷ ps) i t q h live new = elim (Bool-cases (is_closed p.state)) [
  | inl c ↦ let first : i ≡ 0 = grind arith in rw (first, set, find_ticket, live, c) (ground arith)
  | inr c ↦ elim (Option-cases (closed_slot ps)) [
    | inl e ↦ absurd (grind arith)
    | inr (j, e) ↦
        let later : i ≡ suc j = grind arith in
        let past = absent_rest p ps q.position_ticket new in
        rw later (
          find_ticket_behind p ps (set ps j q) j t q.position_ticket new
            (find_ticket-set ps j t q e live past))
  ]
]

find_ticket-append :
    (ps : List Position) (t : ℕ) (q : Position)
    → is_closed q.state ≡ false
    → find_ticket q.position_ticket ps ≡ none
    → find_ticket t (ps ++ (q ∷ []))
      ≡ (if q.position_ticket == t then some (length ps) else find_ticket t ps)
unfolding find_ticket
find_ticket-append [] t q live new = rw live (ground arith)
find_ticket-append (p ∷ ps) t q live new =
    find_ticket_behind p ps (ps ++ (q ∷ [])) (length ps) t q.position_ticket new
      (find_ticket-append ps t q live (absent_rest p ps q.position_ticket new))

place_again :
    (book : PositionBook) (q : Position) (i : ℕ)
    → closed_slot book.positions ≡ some i
    → place book q ≡ some (i, record { positions = set book.positions i q })
unfolding place
place_again book q i e = rw (place, e) refl

place_last :
    (book : PositionBook) (q : Position)
    → closed_slot book.positions ≡ none
    → leb max_positions (length book.positions) ≡ false
    → place book q ≡ some (length book.positions, record { positions = book.positions ++ (q ∷ []) })
unfolding place
place_last book q e room = rw (place, e, room) refl

place_full :
    (book : PositionBook) (q : Position)
    → closed_slot book.positions ≡ none
    → leb max_positions (length book.positions) ≡ true
    → place book q ≡ none
unfolding place
place_full book q e full = rw (place, e, full) refl

-- `open` has no place for a position if and only if `max_positions` positions are open: positions that
-- are closed take up no room.
pub open_ticket_refused :
    (book : PositionBook) (ticket symbol_id : ℕ) (side : Side) (volume price_ticks : ℤ) (ts_ns : ℕ)
    → length book.positions ≤ max_positions
    → (open_ticket book ticket symbol_id side volume price_ticks ts_ns ≡ none)
      ↔ (open_count book ≡ max_positions)
unfolding open_ticket open_count
open_ticket_refused book ticket symbol_id side volume price_ticks ts_ns h =
    let q = opened ticket symbol_id side volume price_ticks ts_ns in
    elim (Option-cases (closed_slot book.positions)) [
      | inl e ↦
          let all = closed_slot-none book.positions e in
          elim (Bool-cases (leb max_positions (length book.positions))) [
            | inl full ↦ ((λ _. ground arith), (λ _. place_full book q e full))
            | inr room ↦ (
              (λ k. absurd (grind (arith, place_last book q e room))),
              (λ k. absurd (ground arith)),
            )
          ]
      | inr (i, e) ↦
          let fewer = closed_slot-some book.positions i e in
          ((λ k. absurd (grind (arith, place_again book q i e))), (λ k. absurd (omega arith)))
    ]

-- What a new position adds to the net volume of a symbol.
abbrev pub net_added : ℕ → ℕ → Side → ℤ → ℤ
net_added s symbol_id side volume = if symbol_id == s then signed_volume side volume else pos 0

add_nothing : (a : ℤ) → a +ℤ pos 0 ≡ a
add_nothing a = omega int_laws

opened_step :
    (ticket symbol_id : ℕ) (side : Side) (volume price_ticks : ℤ) (ts_ns s : ℕ) (a : ℤ)
    → net_step s a (opened ticket symbol_id side volume price_ticks ts_ns)
      ≡ a +ℤ net_added s symbol_id side volume
unfolding net_step
opened_step ticket symbol_id side volume price_ticks ts_ns s a =
    elim (Bool-cases (symbol_id == s)) [ inl e ↦ rw e refl | inr e ↦ rw e (sym (add_nothing a)) ]

-- A position that is opened for a ticket that is not found: the book then holds at most
-- `max_positions` slots, finds the ticket in the slot returned and every other ticket where it was,
-- and the net volume of each symbol changes by the signed volume of the position.
pub open_ticket_lem :
    (book book' : PositionBook) (ticket symbol_id : ℕ) (side : Side) (volume price_ticks : ℤ)
    (ts_ns slot : ℕ)
    → length book.positions ≤ max_positions
    → find_position book ticket ≡ none
    → open_ticket book ticket symbol_id side volume price_ticks ts_ns ≡ some (slot, book')
    → (length book'.positions ≤ max_positions)
      × ((t : ℕ)
          → find_position book' t ≡ (if ticket == t then some slot else find_position book t))
      × ((s : ℕ) → net_volume book' s ≡ net_volume book s +ℤ net_added s symbol_id side volume)
unfolding open_ticket find_position net_volume
open_ticket_lem book book' ticket symbol_id side volume price_ticks ts_ns slot h new made =
    let q = opened ticket symbol_id side volume price_ticks ts_ns in
    let step = opened_step ticket symbol_id side volume price_ticks ts_ns in
    elim (Option-cases (closed_slot book.positions)) [
      | inl e ↦ elim (Bool-cases (leb max_positions (length book.positions))) [
        | inl full ↦ absurd (grind (arith, place_full book q e full))
        | inr room ↦
            let at_end : slot ≡ length book.positions = grind (arith, place_last book q e room) in
            let grown : book' ≡ record { positions = book.positions ++ (q ∷ []) } =
              grind (arith, place_last book q e room) in
            rw (at_end, grown)
              (
                ground (arith, length-append book.positions (q ∷ [])),
                (λ t. find_ticket-append book.positions t q refl new),
                (λ s.
                    net_loop-append s (pos 0) (net_added s symbol_id side volume) book.positions q
                      (step s)),
              )
      ]
      | inr (i, e) ↦
          let at_slot : slot ≡ i = grind (arith, place_again book q i e) in
          let same : book' ≡ record { positions = set book.positions i q } =
            grind (arith, place_again book q i e) in
          rw (at_slot, same)
            (
              omega (arith, length-set book.positions i q),
              (λ t. find_ticket-set book.positions i t q e refl new),
              (λ s.
                  net_loop-set s (pos 0) (net_added s symbol_id side volume) book.positions i q
                    (step s) e),
            )
    ]

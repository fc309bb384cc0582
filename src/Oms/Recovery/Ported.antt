-- ===== src/Oms/Recovery/Ported.antt =====
-- Each handler of the streaming recovery does what the one of the recovery from a journal does.
use market_microstructure_en.Base.{
  ℕ, ◌≤◌, ◌≡◌, refl, ◌∙◌, arith, Bool, true, false, ◌&&◌, ◌||◌, not, ◌==◌, if◌then◌else◌, none,
  Bool-cases, Option-cases, inl, inr,
}
use market_microstructure_en.Base.Int.{pos, leb_ℤ, ◌==ℤ◌}
use market_microstructure_en.Exec.Types.{acknowledged}
use market_microstructure_en.Exec.Journal.{JournalRecord}
use market_microstructure_en.Exec.Broker.State.{state_code}
use market_microstructure_en.Oms.Oms.{find, find_slot, order_at}
use market_microstructure_en.Oms.Pms.{held_slot, held_at}
use market_microstructure_en.Oms.Recovery.{
  Progress, ref_of, read_command, bad_command, read_order_state, read_acknowledgement,
  read_rejection, read_fill, read_cancel, read_replace, bad_replace,
}
use market_microstructure_en.Oms.Recovery.Recover.{
  recovered_position, bad_position, conflicts, put_position, read_position, read_account, read_pnl,
  read_record,
}
use market_microstructure_en.Oms.Recovery.Streamed.{
  stream_command, stream_order_state, stream_acknowledgement, stream_rejection, stream_fill,
  stream_cancel, stream_replace, streamed_position, stream_upsert, stream_position, stream_account,
  stream_pnl, stream_record,
}

if_or {ℓ} :
    {A : Type ℓ} (a b : Bool) (x y : A)
    → (if a then x else if b then x else y) ≡ (if a || b then x else y)
if_or true b x y = refl
if_or false b x y = refl

-- The guards of a change of state and of a fill, in the shapes of the two functions.
state_guard {ℓ} :
    {A : Type ℓ} (bad a b c moved : Bool) (x y : A)
    → (if bad then x else if not a || not b || not c then x else if not moved then x else y)
      ≡ (if bad then x else if not (a && b && c) || not moved then x else y)
state_guard true a b c moved x y = refl
state_guard false false b c moved x y = refl
state_guard false true false c moved x y = refl
state_guard false true true false moved x y = refl
state_guard false true true true moved x y = refl

fill_guard {ℓ} :
    {A : Type ℓ} (bad d0 d1 filled : Bool) (x y : A)
    → (if bad || (not d0 && not d1) then x else if not filled then x else y)
      ≡ (if bad || not (d0 || d1) || not filled then x else y)
fill_guard bad true d1 filled x y = if_or (bad || false) (not filled) x y
fill_guard bad false true filled x y = if_or (bad || false) (not filled) x y
fill_guard bad false false filled x y = if_or (bad || true) (not filled) x y

stream_command_lem : (p : Progress) (r : JournalRecord) → stream_command p r ≡ read_command p r
unfolding stream_command read_command bad_command
stream_command_lem p r = if_or (bad_command r) _ none _

stream_order_state_lem :
    (p : Progress) (r : JournalRecord)
    → stream_order_state p (find p.state.orders (ref_of r)) r ≡ read_order_state p r
unfolding stream_order_state read_order_state
stream_order_state_lem p r = elim (Option-cases (find p.state.orders (ref_of r))) [
  | inl e ↦ rw e refl
  | inr (o, e) ↦ rw e (
      state_guard _ (pos (state_code o.state) ==ℤ r.a) (o.filled_volume ==ℤ r.c)
        (o.requested_volume ==ℤ r.d) _ none _)
]

stream_acknowledgement_lem :
    (p : Progress) (r : JournalRecord)
    → stream_acknowledgement p (find p.state.orders (ref_of r)) r ≡ read_acknowledgement p r
unfolding stream_acknowledgement read_acknowledgement
stream_acknowledgement_lem p r = elim (Option-cases (find p.state.orders (ref_of r))) [
  | inl e ↦ rw e refl
  | inr (o, e) ↦ rw e refl
]

stream_rejection_lem :
    (p : Progress) (r : JournalRecord)
    → stream_rejection p (find p.state.orders (ref_of r)) r ≡ read_rejection p r
unfolding stream_rejection read_rejection
stream_rejection_lem p r = elim (Option-cases (find p.state.orders (ref_of r))) [
  | inl e ↦ rw e (if_or (leb_ℤ r.a (pos 0)) _ none _)
  | inr (o, e) ↦ rw e (if_or (leb_ℤ r.a (pos 0)) _ none _)
]

stream_fill_lem :
    (p : Progress) (r : JournalRecord)
    → stream_fill p (find p.state.orders (ref_of r)) r ≡ read_fill p r
unfolding stream_fill read_fill
stream_fill_lem p r = elim (Option-cases (find p.state.orders (ref_of r))) [
  | inl e ↦ rw e refl
  | inr (o, e) ↦ rw e (fill_guard _ (r.d ==ℤ pos 0) (r.d ==ℤ pos 1) _ none _)
]

stream_cancel_lem :
    (p : Progress) (r : JournalRecord)
    → stream_cancel p (find p.state.orders (ref_of r)) r ≡ read_cancel p r
unfolding stream_cancel read_cancel
stream_cancel_lem p r = elim (Option-cases (find p.state.orders (ref_of r))) [
  | inl e ↦ rw e refl
  | inr (o, e) ↦ rw e refl
]

stream_replace_lem : (p : Progress) (r : JournalRecord) → stream_replace p r ≡ read_replace p r
unfolding stream_replace read_replace bad_replace
stream_replace_lem p r = elim (Option-cases (find_slot p.state.orders (ref_of r))) [
  | inl e ↦ rw (e, stream_replace, read_replace) refl
  | inr (i, e) ↦
      rw (e, stream_replace, read_replace)
        (elim (Bool-cases
          (state_code (order_at p.state.orders i).state == state_code acknowledged)) [
            | inl a ↦ rw a refl
            | inr a ↦ rw a refl
          ])
]

streamed_position_lem : (r : JournalRecord) → streamed_position r ≡ recovered_position r
unfolding streamed_position recovered_position
streamed_position_lem r = elim (Bool-cases (r.b ==ℤ pos 0)) [
  | inl e ↦ rw e refl
  | inr e ↦ rw e refl
]

stream_account_lem : (p : Progress) (r : JournalRecord) → stream_account p r ≡ read_account p r
unfolding stream_account read_account
stream_account_lem p r = refl

stream_pnl_lem : (p : Progress) (r : JournalRecord) → stream_pnl p r ≡ read_pnl p r
unfolding stream_pnl read_pnl
stream_pnl_lem p r = refl

position_guard {ℓ} :
    {A : Type ℓ} (bad placed kept : Bool) (x y : A)
    → (if bad then x else if not placed then x else if not kept then x else y)
      ≡ (if bad || not placed || not kept then x else y)
position_guard true placed kept x y = refl
position_guard false true kept x y = refl
position_guard false false kept x y = refl

-- The streaming handler of a position, by the store that the other one makes.
placed_lem :
    (p : Progress) (r : JournalRecord)
    → let (placed, s) = put_position p.state.positions r in
      stream_position p r
      ≡ (if bad_position r then none else if not placed then none else stream_upsert p s r)
unfolding stream_position put_position bad_position conflicts
placed_lem p r =
    let s = p.state.positions in
    let same = streamed_position_lem r in
    elim (Option-cases (held_slot s r.position_ticket)) [
      | inl e ↦ elim (Bool-cases (r.b ==ℤ pos 0)) [
        | inl z ↦ rw (e, stream_position, put_position) (rw z refl)
        | inr z ↦ rw (e, stream_position, put_position) (rw (same, z) refl)
      ]
      | inr (i, e) ↦ elim (Bool-cases (conflicts (held_at s i) r)) [
        | inl z ↦ rw (e, stream_position, put_position) (rw z refl)
        | inr z ↦ rw (e, stream_position, put_position) (rw (same, z) refl)
      ]
    ]

stream_position_lem : (p : Progress) (r : JournalRecord) → stream_position p r ≡ read_position p r
unfolding read_position stream_upsert
stream_position_lem p r = placed_lem p r ∙ position_guard (bad_position r) _ _ none _

-- Among the numbers of kinds, the one that is none of the other nine is 9.
last_kind {ℓ} :
    {A : Type ℓ} (t : ℕ) (x1 x7 x2 x3 x4 x5 x6 x8 x10 x9 y : A)
    → 1 ≤ t
    → t ≤ 10
    → (if t == 1
        then x1
        else if t == 7
        then x7
        else if t == 2
        then x2
        else if t == 3
        then x3
        else if t == 4
        then x4
        else if t == 5
        then x5
        else if t == 6
        then x6
        else if t == 8
        then x8
        else if t == 10
        then x10
        else if t == 9
        then x9
        else y)
      ≡ (if t == 1
          then x1
          else if t == 7
          then x7
          else if t == 2
          then x2
          else if t == 3
          then x3
          else if t == 4
          then x4
          else if t == 5
          then x5
          else if t == 6
          then x6
          else if t == 8
          then x8
          else if t == 10
          then x10
          else x9)
last_kind t x1 x7 x2 x3 x4 x5 x6 x8 x10 x9 y low high = elim (Bool-cases (t == 9)) [
  | inl e ↦ rw e refl
  | inr e ↦ ground arith
]

pub stream_record_lem :
    (p : Progress) (r : JournalRecord)
    → 1 ≤ r.type
    → r.type ≤ 10
    → stream_record p r ≡ read_record p r
unfolding stream_record read_record
stream_record_lem p r low high =
    rw
      (
        stream_command_lem p r,
        stream_order_state_lem p r,
        stream_acknowledgement_lem p r,
        stream_rejection_lem p r,
        stream_fill_lem p r,
        stream_cancel_lem p r,
        stream_replace_lem p r,
        stream_position_lem p r,
        stream_account_lem p r,
        stream_pnl_lem p r,
      )
      (last_kind r.type _ _ _ _ _ _ _ _ _ _ _ low high)

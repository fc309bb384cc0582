-- ===== src/Oms/Oms/Reserved.antt =====
-- The running total `reserved_` against the sum over the live orders.
use market_microstructure_en.Base.{
  ℕ, zero, suc, ◌-◌, ◌<◌, ◌≡◌, refl, sym, ◌∙◌, arith, ◌==◌, List, [], ◌∷◌, ◌++◌, get_or, set,
  length, length-set, Bool-cases, inl, inr, take, get_or-set_ne,
}
use market_microstructure_en.Base.Int.{◌+ℤ◌, ◌-ℤ◌}
use market_microstructure_en.Exec.Types.{Order, default_order, reserves_exposure}
use market_microstructure_en.Oms.Oms.{Oms, make, order_at, write, append_order}
use market_microstructure_en.Base.Int.{int_laws, parts_of_eq}
use market_microstructure_en.Oms.Oms.Inv.{reservation, total_reserved}
use market_microstructure_en.Oms.Oms.Keep.{swap_remove}
use market_microstructure_en.Oms.Oms.Steps.{with_order, restored}

total-append :
    (xs : List Order) (x : Order)
    → total_reserved (xs ++ (x ∷ [])) ≡ total_reserved xs +ℤ reservation x
unfolding total_reserved
total-append [] x = omega int_laws
total-append (y ∷ ys) x = omega (int_laws, parts_of_eq (total-append ys x))

pub total-set :
    (xs : List Order) (s : ℕ) (x : Order)
    → s < length xs
    → total_reserved (set xs s x)
      ≡ total_reserved xs +ℤ reservation x -ℤ reservation (get_or xs s default_order)
unfolding total_reserved
total-set [] s x h = absurd (omega arith)
total-set (y ∷ ys) zero x h = omega int_laws
total-set (y ∷ ys) (suc s) x h = omega (int_laws, parts_of_eq (total-set ys s x (omega arith)))

total-take_last :
    (n : ℕ) (xs : List Order)
    → length xs ≡ suc n
    → total_reserved (take n xs) ≡ total_reserved xs -ℤ reservation (get_or xs n default_order)
unfolding total_reserved
total-take_last n [] h = absurd (omega arith)
total-take_last zero (x ∷ []) h = omega int_laws
total-take_last zero (x ∷ y ∷ ys) h = absurd (omega arith)
total-take_last (suc n) (x ∷ xs) h =
    omega (int_laws, parts_of_eq (total-take_last n xs (omega arith)))

-- A swap removal takes away what the removed order holds.
pub total-swap_remove :
    (xs : List Order) (s : ℕ)
    → s < length xs
    → total_reserved (swap_remove xs s)
      ≡ total_reserved xs -ℤ reservation (get_or xs s default_order)
unfolding swap_remove
total-swap_remove xs s h = elim (Bool-cases (s == (length xs - 1))) [
  | inl e ↦
      let eq : s ≡ length xs - 1 = ground arith in
      rw (e, eq) (total-take_last (length xs - 1) xs (omega arith))
  | inr e ↦ rw e (
      total-take_last (length xs - 1) (set xs s last) (omega (arith, length-set xs s last))
      ∙ rw (get_or-set_ne xs s (length xs - 1) last default_order (ground arith))
          (omega (int_laws, parts_of_eq (total-set xs s last h))))
]
  where
    last : Order
    last = get_or xs (length xs - 1) default_order

-- The running total is what the live orders reserve.
abbrev pub Balanced : Oms → Type 0
Balanced o = o.reserved ≡ total_reserved o.orders

pub make-Balanced : (capacity : ℕ) → Balanced (make capacity)
unfolding make total_reserved
make-Balanced capacity = refl

pub with_order-Balanced :
    (o : Oms) (x : Order) → Balanced o → Balanced (with_order o x (reservation x))
unfolding append_order
with_order-Balanced o x b = rw (b, total-append o.orders x)

pub restored-Balanced : (o : Oms) (x : Order) → Balanced o → Balanced (restored o x)
unfolding append_order reservation
restored-Balanced o x b =
    rw (total-append o.orders x) (elim (Bool-cases (reserves_exposure x.state)) [
      | inl e ↦ rw (e, b)
      | inr e ↦ rw (e, b) (omega int_laws)
    ])

-- A write that changes what its slot holds by as much as the total is changed.
pub write-Balanced :
    (o : Oms) (s : ℕ) (x : Order)
    → s < length o.orders
    → reservation x ≡ reservation (order_at o s)
    → Balanced o
    → Balanced (write o s x)
unfolding write order_at
write-Balanced o s x h e b = b ∙ sym (total-set o.orders s x h ∙ rw e (omega int_laws))

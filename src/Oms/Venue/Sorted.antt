-- ===== src/Oms/Venue/Sorted.antt =====
-- Sorting a view by reference keeps its orders, and two views with the same orders, with one order for each
-- reference, are sorted to the same list.
use mathlib.Core.List.Perm
use mathlib.Core.List.Permᴰ
use mathlib.Core.List.{Perm, Permᴰ, Pairwise, mem-cons_self}
use mathlib.Core.HLevel.{¬_prop}
use market_microstructure_en.Base.{
  ◌≡◌, ◌≢◌, ◌⊎◌, refl, sym, ap, ◌∙◌, arith, true, false, List, [], ◌∷◌, Bool-cases, inl, inr,
}
use market_microstructure_en.Exec.Types.{ref_eq, ref_eq_iff}
use market_microstructure_en.Oms.Venue.{OrderSnapshot}
use market_microstructure_en.Oms.Venue.Compare.{by_ref, insert_by_ref, sort_by_ref}

-- No two orders of a view have the same reference.
abbrev pub Distinct : List OrderSnapshot → Type 0
Distinct xs = Pairwise (λ (a : OrderSnapshot) (b : OrderSnapshot). a.ref ≢ b.ref) xs

by_ref_cases :
    (x y : OrderSnapshot)
    → x.ref ≢ y.ref
    → ((by_ref x y ≡ true) × (by_ref y x ≡ false)) ⊎ ((by_ref x y ≡ false) × (by_ref y x ≡ true))
unfolding ref_eq
by_ref_cases x y ne = elim (Bool-cases (ref_eq x.ref y.ref)) [
  | inl same ↦ absurd (ne ((ref_eq_iff x.ref y.ref).0 same))
  | inr other ↦ elim (Bool-cases (by_ref x y)) [
    | inl e ↦ inl (e, ground arith)
    | inr e ↦ inr (e, ground arith)
  ]
]

by_ref_below : (x y z : OrderSnapshot) → by_ref z y ≡ false → by_ref z x ≡ true → by_ref y x ≡ true
by_ref_below x y z h k = ground arith

insert_past :
    (x z : OrderSnapshot) (zs : List OrderSnapshot)
    → by_ref z x ≡ true
    → insert_by_ref x (z ∷ zs) ≡ z ∷ insert_by_ref x zs
unfolding insert_by_ref
insert_past x z zs h = rw h refl

insert_here :
    (x z : OrderSnapshot) (zs : List OrderSnapshot)
    → by_ref z x ≡ false
    → insert_by_ref x (z ∷ zs) ≡ x ∷ z ∷ zs
unfolding insert_by_ref
insert_here x z zs h = rw h refl

-- Two orders of which the first stands before the head of a list and the second does not.
insert_around :
    (x y z : OrderSnapshot) (zs : List OrderSnapshot)
    → by_ref z y ≡ true
    → by_ref z x ≡ false
    → insert_by_ref x (insert_by_ref y (z ∷ zs)) ≡ insert_by_ref y (insert_by_ref x (z ∷ zs))
insert_around x y z zs zy zx =
    ap (insert_by_ref x) (insert_past y z zs zy)
    ∙ insert_here x z (insert_by_ref y zs) zx
    ∙ ap (λ ws. x ∷ ws) (sym (insert_past y z zs zy))
    ∙ sym (insert_past y x (z ∷ zs) (by_ref_below y x z zx zy))
    ∙ ap (insert_by_ref y) (sym (insert_here x z zs zx))

-- Two orders that both stand before the head of a list.
insert_before :
    (x y z : OrderSnapshot) (zs : List OrderSnapshot)
    → by_ref z y ≡ false
    → by_ref z x ≡ false
    → by_ref x y ≡ true
    → by_ref y x ≡ false
    → insert_by_ref x (insert_by_ref y (z ∷ zs)) ≡ insert_by_ref y (insert_by_ref x (z ∷ zs))
insert_before x y z zs zy zx xy yx =
    ap (insert_by_ref x) (insert_here y z zs zy)
    ∙ insert_here x y (z ∷ zs) yx
    ∙ ap (λ ws. x ∷ ws) (sym (insert_here y z zs zy))
    ∙ sym (insert_past y x (z ∷ zs) xy)
    ∙ ap (insert_by_ref y) (sym (insert_here x z zs zx))

insert_by_ref_comm :
    (x y : OrderSnapshot) (zs : List OrderSnapshot)
    → x.ref ≢ y.ref
    → insert_by_ref x (insert_by_ref y zs) ≡ insert_by_ref y (insert_by_ref x zs)
insert_by_ref_comm x y [] ne =
    unfold insert_by_ref in
    elim (by_ref_cases x y ne) [ inl (a, b) ↦ rw (a, b) refl | inr (a, b) ↦ rw (a, b) refl ]
insert_by_ref_comm x y (z ∷ zs) ne = elim (Bool-cases (by_ref z y)) [
  | inl zy ↦ elim (Bool-cases (by_ref z x)) [
    | inl zx ↦
        ap (insert_by_ref x) (insert_past y z zs zy)
        ∙ insert_past x z (insert_by_ref y zs) zx
        ∙ ap (λ ws. z ∷ ws) (insert_by_ref_comm x y zs ne)
        ∙ sym (insert_past y z (insert_by_ref x zs) zy)
        ∙ ap (insert_by_ref y) (sym (insert_past x z zs zx))
    | inr zx ↦ insert_around x y z zs zy zx
  ]
  | inr zy ↦ elim (Bool-cases (by_ref z x)) [
    | inl zx ↦ sym (insert_around y x z zs zx zy)
    | inr zx ↦ elim (by_ref_cases x y ne) [
      | inl (xy, yx) ↦ insert_before x y z zs zy zx xy yx
      | inr (xy, yx) ↦ sym (insert_before y x z zs zx zy yx xy)
    ]
  ]
]

insert_by_ref-Perm :
    (x : OrderSnapshot) (xs : List OrderSnapshot) → Perm (insert_by_ref x xs) (x ∷ xs)
unfolding insert_by_ref
insert_by_ref-Perm x [] = Perm.refl _
insert_by_ref-Perm x (y ∷ ys) = elim (Bool-cases (by_ref y x)) [
  | inl e ↦ rw e (Perm.trans (Perm.cons y (insert_by_ref-Perm x ys)) (Perm.swap x y ys))
  | inr e ↦ rw e (Perm.refl _)
]

pub sort_by_ref-Perm : (xs : List OrderSnapshot) → Perm (sort_by_ref xs) xs
unfolding sort_by_ref
sort_by_ref-Perm [] = Perm.refl _
sort_by_ref-Perm (x ∷ xs) =
    Perm.trans (insert_by_ref-Perm x (sort_by_ref xs)) (Perm.cons x (sort_by_ref-Perm xs))

different_sym : (a b : OrderSnapshot) → a.ref ≢ b.ref → b.ref ≢ a.ref
different_sym a b h e = h (sym e)

pub sort_by_ref-same :
    {xs ys : List OrderSnapshot} → Permᴰ xs ys → Distinct xs → sort_by_ref xs ≡ sort_by_ref ys
unfolding sort_by_ref
sort_by_ref-same Permᴰ.nil d = refl
sort_by_ref-same (Permᴰ.cons {b = b} {l₁ = l} e p) (Pairwise.cons h d) =
    ap (λ a. insert_by_ref a (sort_by_ref l)) e ∙ ap (insert_by_ref b) (sort_by_ref-same p d)
sort_by_ref-same (Permᴰ.swap {a = a} {b = b} {a' = a'} {l = l} e e') (Pairwise.cons h d) =
    insert_by_ref_comm a b (sort_by_ref l) (h b mem-cons_self)
    ∙ ap (λ x. insert_by_ref x (insert_by_ref a (sort_by_ref l))) e'
    ∙ ap (λ x. insert_by_ref a' (insert_by_ref x (sort_by_ref l))) e
sort_by_ref-same (Permᴰ.trans p q) d =
    sort_by_ref-same p d ∙ sort_by_ref-same q (Permᴰ.pairwise (λ a b. ¬_prop) different_sym p d)

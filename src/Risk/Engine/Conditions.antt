-- ===== src/Risk/Engine/Conditions.antt =====
-- The conditions of an approval, each stated on its own.
use market_microstructure_en.Base.{
  ℕ, ◌+◌, ◌<◌, ◌≤◌, ◌≡◌, ◌≢◌, ◌⊎◌, inl, inr, refl, arith, Bool, true, false, ◌&&◌, ◌||◌, not, ◌==◌,
  ltb, Bool-cases, both_false,
}
use market_microstructure_en.Base.Int.{
  ℤ, pos, negsuc, neg, ltb_ℤ, leb_ℤ, ◌==ℤ◌, ◌≤ℤ◌, ◌<ℤ◌, abs64, int64_min,
}
use market_microstructure_en.Base.Words.{sub64, u64_mod}
use market_microstructure_en.Exec.Types.{Side, buy, sell}
use market_microstructure_en.Risk.Margin.{self_trade_ok}
use market_microstructure_en.Risk.Engine.{Request, bad_arithmetic}

pub not_less : (a b : ℤ) → ltb_ℤ b a ≡ false → a ≤ℤ b
not_less a b h = ground arith

pub less_not : (a b : ℤ) → a ≤ℤ b → ltb_ℤ b a ≡ false
less_not a b h = ground arith

not_equal : (a b : ℤ) → (a ==ℤ b) ≡ false → a ≢ b
not_equal a b h = ground arith

equal_not : (a b : ℤ) → a ≢ b → (a ==ℤ b) ≡ false
equal_not a b h = ground arith

neither : (a b : Bool) → a ≡ false → b ≡ false → (a || b) ≡ false
neither a b h k = rw (h, k) refl

in_order : (last now : ℕ) → (not (last == 0) && ltb now last) ≡ false → (last ≡ 0) ⊎ (last ≤ now)
in_order last now h = elim (Bool-cases (last == 0)) [
  | inl e ↦ inl (ground arith)
  | inr e ↦ inr (ground arith)
]

order_in : (last now : ℕ) → (last ≡ 0) ⊎ (last ≤ now) → (not (last == 0) && ltb now last) ≡ false
order_in last now (inl z) = rw z refl
order_in last now (inr before) = ground arith

-- The numbers of a request can be computed with, and its clock does not run backwards.
pub record Sound (r : Request) : Type 0 where
  pub position_sound : r.projected_position ≢ int64_min
  pub net_sound : r.projected_net ≢ int64_min
  pub notional_sound : pos 0 ≤ℤ r.notional
  pub margin_sound : pos 0 ≤ℤ r.order_margin
  pub free_sound : pos 0 ≤ℤ r.free_margin
  pub risk_sound : pos 0 ≤ℤ r.risk_minor
  pub gross_sound : pos 0 ≤ℤ r.projected_gross
  pub leverage_sound : pos 0 ≤ℤ r.leverage_bp
  pub spread_sound : pos 0 ≤ℤ r.spread_ticks
  pub slippage_sound : pos 0 ≤ℤ r.slippage_ticks
  pub clock_sound : (r.last_order_ns ≡ 0) ⊎ (r.last_order_ns ≤ r.now_ns)

pub bad_arithmetic-Sound : (r : Request) → bad_arithmetic r ≡ false → Sound r
unfolding bad_arithmetic
bad_arithmetic-Sound r h =
    let (h10, b10) = both_false _ _ h in
    let (h9, b9) = both_false _ _ h10 in
    let (h8, b8) = both_false _ _ h9 in
    let (h7, b7) = both_false _ _ h8 in
    let (h6, b6) = both_false _ _ h7 in
    let (h5, b5) = both_false _ _ h6 in
    let (h4, b4) = both_false _ _ h5 in
    let (h3, b3) = both_false _ _ h4 in
    let (h2, b2) = both_false _ _ h3 in
    let (b0, b1) = both_false _ _ h2 in
    record {
      position_sound = not_equal r.projected_position int64_min b0;
      net_sound = not_equal r.projected_net int64_min b1;
      notional_sound = not_less (pos 0) r.notional b2;
      margin_sound = not_less (pos 0) r.order_margin b3;
      free_sound = not_less (pos 0) r.free_margin b4;
      risk_sound = not_less (pos 0) r.risk_minor b5;
      gross_sound = not_less (pos 0) r.projected_gross b6;
      leverage_sound = not_less (pos 0) r.leverage_bp b7;
      spread_sound = not_less (pos 0) r.spread_ticks b8;
      slippage_sound = not_less (pos 0) r.slippage_ticks b9;
      clock_sound = in_order r.last_order_ns r.now_ns b10;
    }

pub Sound-bad_arithmetic : (r : Request) → Sound r → bad_arithmetic r ≡ false
unfolding bad_arithmetic
Sound-bad_arithmetic r s =
    neither _ _
      (neither _ _
        (neither _ _
          (neither _ _
            (neither _ _
              (neither _ _
                (neither _ _
                  (neither _ _
                    (neither _ _
                      (neither _ _ ((equal_not r.projected_position int64_min s.position_sound))
                        (equal_not r.projected_net int64_min s.net_sound))
                      (less_not (pos 0) r.notional s.notional_sound))
                    (less_not (pos 0) r.order_margin s.margin_sound))
                  (less_not (pos 0) r.free_margin s.free_sound))
                (less_not (pos 0) r.risk_minor s.risk_sound))
              (less_not (pos 0) r.projected_gross s.gross_sound))
            (less_not (pos 0) r.leverage_bp s.leverage_sound))
          (less_not (pos 0) r.spread_ticks s.spread_sound))
        (less_not (pos 0) r.slippage_ticks s.slippage_sound))
      (order_in r.last_order_ns r.now_ns s.clock_sound)

-- The minimum time since the last order, if there was one.
abbrev pub Spaced : ℕ → ℕ → ℕ → Type 0
Spaced last now least = (last ≡ 0) ⊎ (last + least ≤ now)

pub spaced :
    (last now least : ℕ)
    → now < u64_mod
    → (last ≡ 0) ⊎ (last ≤ now)
    → (not (last == 0) && ltb (sub64 now last) least) ≡ false
    → Spaced last now least
spaced last now least w (inl z) h = inl z
spaced last now least w (inr before) h = ground arith

pub unspaced :
    (last now least : ℕ)
    → now < u64_mod
    → Spaced last now least
    → (not (last == 0) && ltb (sub64 now last) least) ≡ false
unspaced last now least w (inl z) = rw z refl
unspaced last now least w (inr after) = ground arith

-- An order that may only reduce is against the position that is held.
abbrev pub Reduces : Bool → Side → ℤ → Type 0
Reduces false side net = Unit
Reduces true buy net = net <ℤ pos 0
Reduces true sell net = pos 0 <ℤ net

-- An order is not against the position of another strategy, unless that is allowed.
abbrev pub WithPosition : Side → ℤ → Type 0
WithPosition buy net = pos 0 ≤ℤ net
WithPosition sell net = net ≤ℤ pos 0

pub reduces :
    (only : Bool) (side : Side) (net : ℤ)
    → (only && elim side as (λ _. Bool) [ buy ↦ leb_ℤ (pos 0) net | sell ↦ leb_ℤ net (pos 0) ])
      ≡ false
    → Reduces only side net
reduces false side net h = tt
reduces true buy net h = ground arith
reduces true sell net h = ground arith

pub Reduces-back :
    (only : Bool) (side : Side) (net : ℤ)
    → Reduces only side net
    → (only && elim side as (λ _. Bool) [ buy ↦ leb_ℤ (pos 0) net | sell ↦ leb_ℤ net (pos 0) ])
      ≡ false
Reduces-back false side net h = refl
Reduces-back true buy net h = ground arith
Reduces-back true sell net h = ground arith

-- The ways in which an order is not against the position of another strategy.
abbrev pub NoSelfTrade : Bool → Bool → ℕ → ℕ → ℤ → Side → Type 0
NoSelfTrade hedging allow owner strategy net side =
    (hedging ≡ false) ⊎ (allow ≡ true) ⊎ (owner ≡ strategy) ⊎ WithPosition side net

with_position :
    (side : Side) (net : ℤ)
    → (net ==ℤ pos 0) ≡ false
    → elim side as (λ _. Bool) [ buy ↦ ltb_ℤ (pos 0) net | sell ↦ ltb_ℤ net (pos 0) ] ≡ true
    → WithPosition side net
with_position buy net n h = ground arith
with_position sell net n h = ground arith

flat-WithPosition : (side : Side) (net : ℤ) → (net ==ℤ pos 0) ≡ true → WithPosition side net
flat-WithPosition buy net h = ground arith
flat-WithPosition sell net h = ground arith

position_with :
    (side : Side) (net : ℤ)
    → WithPosition side net
    → (net ==ℤ pos 0) ≡ false
    → elim side as (λ _. Bool) [ buy ↦ ltb_ℤ (pos 0) net | sell ↦ ltb_ℤ net (pos 0) ] ≡ true
position_with buy net w n = ground arith
position_with sell net w n = ground arith

pub self_trade_ok-NoSelfTrade :
    (hedging allow : Bool) (owner strategy : ℕ) (net : ℤ) (side : Side)
    → self_trade_ok hedging allow owner strategy net side ≡ true
    → NoSelfTrade hedging allow owner strategy net side
unfolding self_trade_ok
self_trade_ok-NoSelfTrade false allow owner strategy net side h = inl refl
self_trade_ok-NoSelfTrade true true owner strategy net side h = inr (inl refl)
self_trade_ok-NoSelfTrade true false owner strategy net side h = elim (Bool-cases (net ==ℤ pos 0)) [
  | inl e ↦ inr (inr (inr (flat-WithPosition side net e)))
  | inr e ↦ elim (Bool-cases (owner == strategy)) [
    | inl f ↦ inr (inr (inl (ground arith)))
    | inr f ↦ inr (inr (inr (with_position side net e (rw (e, f) at h))))
  ]
]

pub NoSelfTrade-self_trade_ok :
    (hedging allow : Bool) (owner strategy : ℕ) (net : ℤ) (side : Side)
    → NoSelfTrade hedging allow owner strategy net side
    → self_trade_ok hedging allow owner strategy net side ≡ true
unfolding self_trade_ok
NoSelfTrade-self_trade_ok hedging allow owner strategy net side (inl e) = rw e refl
NoSelfTrade-self_trade_ok hedging allow owner strategy net side (inr (inl e)) = ground arith
NoSelfTrade-self_trade_ok hedging allow owner strategy net side (inr (inr (inl e))) = ground arith
NoSelfTrade-self_trade_ok hedging allow owner strategy net side (inr (inr (inr w))) =
    elim (Bool-cases (net ==ℤ pos 0)) [
      | inl e ↦ ground arith
      | inr e ↦ let ok = position_with side net w e in rw (e, ok) (ground arith)
    ]

-- At most `most` in absolute value.
abbrev pub Within : ℤ → ℤ → Type 0
Within x most = (x ≤ℤ most) × (neg x ≤ℤ most)

pub abs64-Within : (x most : ℤ) → abs64 x ≤ℤ most → Within x most
unfolding abs64 neg
abs64-Within (pos n) most h = ground arith
abs64-Within (negsuc n) most h = ground arith

pub Within-abs64 : (x most : ℤ) → Within x most → abs64 x ≤ℤ most
unfolding abs64 neg
Within-abs64 (pos n) most w = ground arith
Within-abs64 (negsuc n) most w = ground arith

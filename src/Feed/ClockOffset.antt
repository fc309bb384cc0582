-- ===== src/Feed/ClockOffset.antt =====
-- include/feed/clock_offset.hpp: the offset between the terminal's clock and the local one.
use market_microstructure_en.Base.{
  ℕ, ◌-◌, ◌<◌, ◌^◌, Bool, true, false, ◌||◌, not, if◌then◌else◌, ◌≡◌, ◌≢◌, refl, arith, ltb, Option,
  none, some,
}
use market_microstructure_en.Base.Int.{ℤ, pos, negsuc, neg, ltb_ℤ, leb_ℤ, ◌==ℤ◌, int64_min}
use market_microstructure_en.Base.Words.{add64, sub64, to_u64, u64_mod}

pub record ClockOffsetEstimator : Type 0 where
  pub offset_ns : ℤ
  pub initialized : Bool

abbrev pub new_estimator : ClockOffsetEstimator
new_estimator = record { offset_ns = pos 0; initialized = false }

-- The conversion of a `std::uint64_t` to a signed integer.
abbrev pub to_i64 : ℕ → ℤ
to_i64 n = if ltb n (2 ^ 63) then pos n else negsuc (u64_mod - 1 - n)

unfoldable pub sample_of : ℕ → ℕ → ℤ
sample_of terminal_utc_ns local_utc_ns = to_i64 (sub64 local_utc_ns terminal_utc_ns)

unfoldable pub observe_clock : ClockOffsetEstimator → ℕ → ℕ → ClockOffsetEstimator
observe_clock e terminal_utc_ns local_utc_ns =
    let sample = sample_of terminal_utc_ns local_utc_ns in
    record {
      offset_ns = if not e.initialized || ltb_ℤ sample e.offset_ns then sample else e.offset_ns;
      initialized = true;
    }

-- `none` stands where the code has no defined result: where `-offset_ns` overflows.
unfoldable pub correct : ClockOffsetEstimator → ℕ → Option ℕ
correct e terminal_utc_ns =
    if not e.initialized
    then some terminal_utc_ns
    else if leb_ℤ (pos 0) e.offset_ns
    then some (add64 terminal_utc_ns (to_u64 e.offset_ns))
    else if e.offset_ns ==ℤ int64_min
    then none
    else some (sub64 terminal_utc_ns (to_u64 (neg e.offset_ns)))

by_offset :
    (t l : ℕ) (offset : ℤ)
    → t < u64_mod
    → l < u64_mod
    → sub64 l t ≢ 2 ^ 63
    → offset ≡ to_i64 (sub64 l t)
    → (if leb_ℤ (pos 0) offset
        then some (add64 t (to_u64 offset))
        else if offset ==ℤ int64_min
        then none
        else some (sub64 t (to_u64 (neg offset))))
      ≡ some l
unfolding neg
by_offset t l (pos n) ht hl ne h = ground arith
by_offset t l (negsuc n) ht hl ne h = ground arith

-- After its first observation the estimator corrects the observed time of the terminal to the local
-- time, whichever clock is ahead, unless the two are 2^63 nanoseconds apart, where the offset has no
-- negation in 64 bits.
pub correct-observe_clock :
    (t l : ℕ)
    → t < u64_mod
    → l < u64_mod
    → sub64 l t ≢ 2 ^ 63
    → correct (observe_clock new_estimator t l) t ≡ some l
unfolding correct observe_clock sample_of
correct-observe_clock t l ht hl ne = by_offset t l _ ht hl ne refl

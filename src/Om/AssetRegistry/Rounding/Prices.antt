-- ===== src/Om/AssetRegistry/Rounding/Prices.antt =====
-- The tick of a price, by the venue's rules on decimals and on significant figures.
use Prim.Native.Nat.{◌≤◌, ◌<◌, min}
use native.Mathlib.Nat.{pow-le-pow_right}
use hyperliquid_cpp.Base.{
  ℕ, zero, suc, ◌+◌, ◌-◌, ◌==◌, ◌^◌, ◌≡◌, refl, ap, ◌∙◌, false, leb, ltb, if◌then◌else◌, Bool-cases,
  inl, inr, ◌⊎◌, arith,
}
use hyperliquid_cpp.Base.Int.{
  ℤ, pos, negsuc, lt_ℤ, eq_ℤ, ◌-ℤ◌, magnitude, pos_part, neg_part, -ℤ_parts, eq_of_parts, int64_max,
}
use hyperliquid_cpp.Core.Decimal.{Decimal, RoundingMode, round_to_quantum, round_raw}
use hyperliquid_cpp.Core.Decimal.Rounding.{RoundsTo, IsMultiple, round_raw-RoundsTo_pos}
use hyperliquid_cpp.Om.AssetRegistry.{
  AssetInfo, digit_loop, digit_count, greater, lesser, max_price_decimals, decimals_for,
  px_exponent, round_px,
}
use hyperliquid_cpp.Core.Decimal.Rounding.Ranges.{NoOverflow, rounding-NoOverflow}
use hyperliquid_cpp.Om.AssetRegistry.Rounding.{pow10_pos}

below_digit_loop : (rounds v n : ℕ) → v < 10 ^ (n + rounds) → v < 10 ^ digit_loop rounds v n
unfolding digit_loop
below_digit_loop zero v n h = let e : n + 0 ≡ n = omega arith in rw e at h
below_digit_loop (suc rounds) v n h = elim (Bool-cases (leb (10 ^ n) v)) [
  | inl t ↦
      let e : n + suc rounds ≡ n + 1 + rounds = omega arith in
      rw t (below_digit_loop rounds v (n + 1) (rw e at h))
  | inr t ↦ rw t (ground arith)
]

below_digit_count : (v : ℕ) → v < 10 ^ 19 → v < 10 ^ digit_count v
unfolding digit_count
below_digit_count v h = below_digit_loop 18 v 1 h

lesser-pos : (a b : ℕ) → lesser (pos a) (pos b) ≡ pos (min a b)
lesser-pos a b = elim (Bool-cases (ltb (b + 0) (a + 0))) [
  | inl t ↦ rw t (ap pos (ground arith))
  | inr t ↦ rw t (ap pos (ground arith))
]

greater-zero : (b : ℤ) → greater (pos 0) b ≡ pos (pos_part b)
greater-zero (pos n) = elim (Bool-cases (ltb (0 + 0) (n + 0))) [
  | inl t ↦ rw t refl
  | inr t ↦ rw t (ap pos (ground arith))
]
greater-zero (negsuc n) = let e : ltb (0 + suc n) (0 + 0) ≡ false = ground arith in rw e refl

decimals_by_figures :
    (digits : ℕ)
    → (if lt_ℤ (pos 4 -ℤ (pos digits -ℤ pos 1 -ℤ pos 8)) (pos 0)
        then pos 0
        else pos 4 -ℤ (pos digits -ℤ pos 1 -ℤ pos 8))
      ≡ pos (13 - digits)
decimals_by_figures digits = elim (Bool-cases (lt_ℤ by_sig_figs (pos 0))) [
  | inl t ↦ rw t (ap pos (ground (arith, parts)))
  | inr t ↦ rw t (eq_of_parts _ _ (ground (arith, parts)))
]
  where
    by_sig_figs : ℤ
    by_sig_figs = pos 4 -ℤ (pos digits -ℤ pos 1 -ℤ pos 8)

    parts : pos_part by_sig_figs + digits ≡ neg_part by_sig_figs + 13
    parts = omega (
      arith,
      -ℤ_parts (pos 4) (pos digits -ℤ pos 1 -ℤ pos 8),
      -ℤ_parts (pos digits -ℤ pos 1) (pos 8),
      -ℤ_parts (pos digits) (pos 1),
    )

decimals_for_pos :
    (digits : ℕ) (limit : ℤ)
    → decimals_for digits limit ≡ pos (min (min (13 - digits) (pos_part limit)) 8)
unfolding decimals_for
decimals_for_pos digits limit =
    rw (decimals_by_figures digits, greater-zero limit, lesser-pos (13 - digits) (pos_part limit))
      (lesser-pos (min (13 - digits) (pos_part limit)) 8)

magnitude_eight : (m : ℕ) → m ≤ 8 → magnitude (pos 8 -ℤ pos m) ≡ 8 - m
magnitude_eight m h =
    let e : pos 8 -ℤ pos m ≡ pos (8 - m) =
      eq_of_parts _ _ (omega (arith, -ℤ_parts (pos 8) (pos m))) in
    ap magnitude e ∙ (omega arith)

-- `digit_count` counts no leading zero.
digit_loop_below : (rounds v n : ℕ) → 10 ^ (n - 1) ≤ v → 10 ^ (digit_loop rounds v n - 1) ≤ v
unfolding digit_loop
digit_loop_below zero v n h = h
digit_loop_below (suc rounds) v n h = elim (Bool-cases (leb (10 ^ n) v)) [
  | inl t ↦
      let e : n + 1 - 1 ≡ n = omega arith in
      rw t (digit_loop_below rounds v (n + 1) (rw e (ground arith)))
  | inr t ↦ rw t h
]

digit_count_below : (v : ℕ) → 0 < v → 10 ^ (digit_count v - 1) ≤ v
unfolding digit_count
digit_count_below v h = digit_loop_below 18 v 1 (omega arith)

-- A tick of 10 ^ e mantissa units leaves 8 - e decimals. The venue allows `limit` decimals, none when
-- it is negative, and five significant figures, but any whole number.
abbrev pub IsAllowed : ℤ → ℕ → ℕ → Type 0
IsAllowed limit price e = (8 ≤ e + pos_part limit) × (e ≡ 8 ⊎ price < 10 ^ (e + 5))

-- It is the finest such tick: the smallest there is, or the next one, a tenth of it, would leave a
-- decimal too many or a sixth figure.
abbrev pub IsFinest : ℤ → ℕ → ℕ → Type 0
IsFinest limit price e = e ≡ 0 ⊎ (e + pos_part limit ≡ 8 ⊎ 10 ^ (e + 4) ≤ price)

-- The tick that the source picks.
abbrev pub IsTick : ℤ → ℕ → ℕ → Type 0
IsTick limit price e = e ≤ 8 × IsAllowed limit price e × IsFinest limit price e

-- The same in the number of digits.
abbrev IsTickOf : ℕ → ℕ → ℕ → Type 0
IsTickOf digits p e =
    e ≤ 8 × 8 ≤ e + p × (e ≡ 8 ⊎ digits ≤ e + 5) × (e ≡ 0 ⊎ (e + p ≡ 8 ⊎ e + 4 ≤ digits - 1))

least_exponent : (digits p : ℕ) → IsTickOf digits p (8 - min (min (13 - digits) p) 8)
least_exponent digits p = (
  omega arith,
  omega arith,
  elim (Bool-cases (e == 8)) [ inl t ↦ inl (ground arith) | inr f ↦ inr (ground arith) ],
  elim (Bool-cases (e == 0)) [
    | inl t ↦ inl (ground arith)
    | inr f ↦ elim (Bool-cases (e + p == 8)) [
      | inl t ↦ inr (inl (ground arith))
      | inr g ↦ inr (inr (ground arith))
    ]
  ],
)
  where
    e : ℕ
    e = 8 - min (min (13 - digits) p) 8

-- Eight decimals, less those that the price may keep.
exponent_rule :
    (digits : ℕ) (limit : ℤ)
    → IsTickOf digits (pos_part limit) (magnitude (pos 8 -ℤ decimals_for digits limit))
exponent_rule digits limit =
    let m = min (min (13 - digits) (pos_part limit)) 8 in
    rw (decimals_for_pos digits limit, magnitude_eight m (omega arith))
      (least_exponent digits (pos_part limit))

by_digits :
    (v e : ℕ) (limit : ℤ)
    → v < 10 ^ digit_count v
    → 10 ^ (digit_count v - 1) ≤ v
    → IsTickOf (digit_count v) (pos_part limit) e
    → IsTick limit v e
by_digits v e limit below above (small, decimals, figures, finest) = (
  small,
  (
    decimals,
    elim figures [
      | inl whole ↦ inl whole
      | inr few ↦ inr (omega (arith, below, pow-le-pow_right {n = 10} (omega arith) few))
    ],
  ),
  elim finest [
    | inl unit ↦ inl unit
    | inr (inl limited) ↦ inr (inl limited)
    | inr (inr many) ↦
        inr (inr (omega (arith, above, pow-le-pow_right {n = 10} (omega arith) many)))
  ],
)

tick_small : (e : ℕ) → e ≤ 8 → 10 ^ e ≤ 10 ^ 8
tick_small e h = pow-le-pow_right {n = 10} (omega arith) h

-- A nonzero price whose size and 10 ^ 8 sum to at most 2 ^ 63 - 1 is rounded to a multiple of the
-- finest tick that the venue allows, on the side that the mode asks for, and no operation of the
-- rounding overflows. The venue allows a tick that leaves at most as many decimals as the asset has,
-- and that is a whole number or leaves at most five significant figures of the price.
pub round_px-RoundsTo :
    (info : AssetInfo) (px : Decimal) (mode : RoundingMode)
    → magnitude px.raw + 10 ^ 8 ≤ int64_max
    → eq_ℤ px.raw (pos 0) ≡ false
    → (e : ℕ) × (IsTick (max_price_decimals info) (magnitude px.raw) e
        × RoundsTo mode px.raw (10 ^ e) (round_px info px mode).raw
        × IsMultiple (round_px info px mode).raw (10 ^ e)
        × NoOverflow px.raw (10 ^ e))
unfolding round_px px_exponent round_to_quantum
round_px-RoundsTo info px mode fits nonzero = (e, rw nonzero (tick, rounded.0, rounded.1, exact))
  where
    v : ℕ
    v = magnitude px.raw

    e : ℕ
    e = magnitude (pos 8 -ℤ decimals_for (digit_count v) (max_price_decimals info))

    rounded :
        RoundsTo mode px.raw (10 ^ e) (round_raw px.raw (pos (10 ^ e)) mode)
        × IsMultiple (round_raw px.raw (pos (10 ^ e)) mode) (10 ^ e)
    rounded = round_raw-RoundsTo_pos px.raw (10 ^ e) mode (pow10_pos e)

    tick : IsTick (max_price_decimals info) v e
    tick =
        by_digits v e (max_price_decimals info) (below_digit_count v (omega (arith, fits)))
          (digit_count_below v (ground (arith, nonzero)))
          (exponent_rule (digit_count v) (max_price_decimals info))

    exact : NoOverflow px.raw (10 ^ e)
    exact =
        rounding-NoOverflow px.raw (10 ^ e) (pow10_pos e) (omega (arith, fits, tick_small e tick.0))

-- ===== src/Om/AssetRegistry/Rounding.antt =====
-- Sizes are rounded towards zero.
pub mod Prices
use Prim.Native.Nat.{◌≤◌, ◌<◌, min}
use native.Mathlib.Nat.{pow-le-pow_right, pow-suc}
use hyperliquid_cpp.Base.{
  ℕ, zero, suc, ◌+◌, ◌-◌, ◌==◌, ◌*◌, ◌^◌, ◌≡◌, refl, ap, ◌∙◌, true, false, leb, ltb, if◌then◌else◌,
  Bool-cases, inl, inr, ◌⊎◌, arith,
}
use hyperliquid_cpp.Base.Int.{
  ℤ, pos, negsuc, lt_ℤ, eq_ℤ, ◌-ℤ◌, magnitude, pos_part, neg_part, -ℤ_parts, +ℤ_parts, *ℤ-pos_parts,
  ◌*ℤ◌, eq_of_parts, ◌≤ℤ◌, IsInt64, is_neg,
}
use hyperliquid_cpp.Core.Decimal.{Decimal, RoundingMode, round_to_quantum, round_raw}
use hyperliquid_cpp.Core.Decimal.Rounding.{RoundsTo, IsMultiple, round_raw-RoundsTo_pos}
use hyperliquid_cpp.Om.AssetRegistry.{
  AssetInfo, digit_loop, digit_count, greater, lesser, max_price_decimals, decimals_for,
  px_exponent, round_px, sz_exponent, round_sz, is_down,
}

pub pow10_pos : (k : ℕ) → 0 < 10 ^ k
pow10_pos zero = omega arith
pow10_pos (suc k) = omega (arith, pow-suc 10 k, pow10_pos k)

multiple-not_negative :
    (r k : ℤ) (q : ℕ) → r ≡ k *ℤ pos q → neg_part r < q + pos_part r → pos 0 ≤ℤ r
multiple-not_negative r (pos n) q e h = rw e (omega (arith, *ℤ-pos_parts (pos n) q))
multiple-not_negative r (negsuc n) q e h =
    let m : q ≤ suc n * q = grind arith in
    absurd (omega (arith, m, (rw e at h), *ℤ-pos_parts (negsuc n) q))

-- A value of at least zero, rounded down, stays between zero and itself.
round_raw-down :
    (raw : ℤ) (q : ℕ)
    → 0 < q
    → pos 0 ≤ℤ raw
    → (pos 0 ≤ℤ round_raw raw (pos q) RoundingMode.down)
      × (round_raw raw (pos q) RoundingMode.down ≤ℤ raw)
round_raw-down raw q h n =
    let rounded = round_raw-RoundsTo_pos raw q RoundingMode.down h in
    let r = round_raw raw (pos q) RoundingMode.down in
    (
      multiple-not_negative r rounded.1.0 q rounded.1.1
          (omega (arith, rounded.0.1, n, +ℤ_parts r (pos q))),
      rounded.0.0,
    )

-- A size rounded down lies between zero and the size that was asked for, whatever its sign.
pub round_sz-IsTowardsZero :
    (info : AssetInfo) (sz : Decimal)
    → (pos 0 ≤ℤ (round_sz info sz RoundingMode.down).raw
        × (round_sz info sz RoundingMode.down).raw ≤ℤ sz.raw)
      ⊎ (sz.raw ≤ℤ (round_sz info sz RoundingMode.down).raw
          × (round_sz info sz RoundingMode.down).raw ≤ℤ pos 0)
unfolding round_sz round_to_quantum is_down
round_sz-IsTowardsZero info sz = elim (Bool-cases (is_neg sz.raw)) [
  | inl t ↦
      let q = 10 ^ sz_exponent info in
      let r = round_raw (pos 0 -ℤ sz.raw) (pos q) RoundingMode.down in
      let h =
        round_raw-down (pos 0 -ℤ sz.raw) q (pow10_pos (sz_exponent info))
          (omega (arith, is_neg_parts sz.raw t, -ℤ_parts (pos 0) sz.raw)) in
      inr (
        rw t (
          omega (arith, h.0, h.1, -ℤ_parts (pos 0) sz.raw, -ℤ_parts (pos 0) r),
          omega (arith, h.0, h.1, -ℤ_parts (pos 0) sz.raw, -ℤ_parts (pos 0) r),
        ))
  | inr t ↦
      inl (rw t (round_raw-down sz.raw _ (pow10_pos (sz_exponent info)) (not_neg_parts sz.raw t)))
]
  where
    is_neg_parts : (a : ℤ) → is_neg a ≡ true → pos_part a ≡ 0
    is_neg_parts (pos n) e = absurd (ground arith)
    is_neg_parts (negsuc n) e = refl

    not_neg_parts : (a : ℤ) → is_neg a ≡ false → pos 0 ≤ℤ a
    not_neg_parts (pos n) e = omega arith
    not_neg_parts (negsuc n) e = absurd (ground arith)

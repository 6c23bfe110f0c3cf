-- ===== src/Core/Decimal/Rounding/Ranges.antt =====
-- `roundToQuantum` in the range of int64_t.
use hyperliquid_cpp.Base.{ℕ, suc, ◌+◌, ◌*◌, ◌≤◌, ◌<◌, arith}
use hyperliquid_cpp.Base.Int.{
  ℤ, pos, negsuc, ◌+ℤ◌, ◌-ℤ◌, ◌*ℤ◌, ◌≤ℤ◌, ◌<ℤ◌, +ℤ_parts, -ℤ_parts, pos_part, neg_part, IsInt64,
  magnitude, int64_max,
}
use hyperliquid_cpp.Core.Decimal.{floor_multiple, round_raw, RoundingMode}
use hyperliquid_cpp.Core.Decimal.Rounding.{
  RoundsTo, IsMultiple, doubled, doubled_plus, floor_multiple_bounds, round_raw-RoundsTo_pos,
}

-- Every number that `roundToQuantum` computes from these is an int64_t: the quotient rounded down, the
-- two multiples around the value, and the distances to them.
abbrev pub NoOverflow : ℤ → ℕ → Type 0
NoOverflow raw q =
    let k = floor_multiple raw (pos q) in
    let lo = k *ℤ pos q in
    let hi = lo +ℤ pos q in
    IsInt64 k × IsInt64 lo × IsInt64 hi × IsInt64 (raw -ℤ lo) × IsInt64 (hi -ℤ raw)

factor_le : (k q m : ℕ) → 0 < q → k * q ≤ m → k ≤ m
factor_le k q m h e = grind arith

quotient-IsInt64 : (k : ℤ) (q : ℕ) → 0 < q → IsInt64 (k *ℤ pos q) → IsInt64 k
unfolding ◌*ℤ◌
quotient-IsInt64 (pos n) q h e = omega (arith, factor_le n q int64_max h (ground (arith, e)))
quotient-IsInt64 (negsuc n) q h e =
    omega (arith, factor_le (suc n) q (int64_max + 1) h (ground (arith, e)))

IsInt64-between :
    (a : ℤ)
    → pos_part a ≤ int64_max + neg_part a
    → neg_part a ≤ int64_max + 1 + pos_part a
    → IsInt64 a
IsInt64-between (pos n) h k = omega arith
IsInt64-between (negsuc n) h k = omega arith

-- A value rounded by less than a quantum stays in the range.
IsInt64-rounded :
    (mode : RoundingMode) (raw r : ℤ) (q : ℕ)
    → magnitude raw + q ≤ int64_max
    → RoundsTo mode raw q r
    → IsInt64 r
IsInt64-rounded RoundingMode.down raw r q fits s =
    IsInt64-between r (omega (arith, fits, s, +ℤ_parts r (pos q)))
      (omega (arith, fits, s, +ℤ_parts r (pos q)))
IsInt64-rounded RoundingMode.up raw r q fits s =
    IsInt64-between r (omega (arith, fits, s, +ℤ_parts raw (pos q)))
      (omega (arith, fits, s, +ℤ_parts raw (pos q)))
IsInt64-rounded RoundingMode.nearest raw r q fits (near, far, up_tie, down_tie) =
    IsInt64-between r (omega (arith, fits, near, far, doubled r q, doubled_plus raw q))
      (omega (arith, fits, near, far, doubled raw q, doubled_plus r q))

pub rounding-NoOverflow :
    (raw : ℤ) (q : ℕ) → 0 < q → magnitude raw + q ≤ int64_max → NoOverflow raw q
rounding-NoOverflow raw q h fits =
    (quotient-IsInt64 k q h low, low, high, down_distance, up_distance)
  where
    k : ℤ
    k = floor_multiple raw (pos q)

    b : (k *ℤ pos q ≤ℤ raw) × (raw <ℤ k *ℤ pos q +ℤ pos q)
    b = floor_multiple_bounds raw q h

    low : IsInt64 (k *ℤ pos q)
    low =
        IsInt64-between _ (omega (arith, fits, b, +ℤ_parts (k *ℤ pos q) (pos q)))
          (omega (arith, fits, b, +ℤ_parts (k *ℤ pos q) (pos q)))

    high : IsInt64 (k *ℤ pos q +ℤ pos q)
    high =
        IsInt64-between _ (omega (arith, fits, b, +ℤ_parts (k *ℤ pos q) (pos q)))
          (omega (arith, fits, b, +ℤ_parts (k *ℤ pos q) (pos q)))

    down_distance : IsInt64 (raw -ℤ k *ℤ pos q)
    down_distance =
        IsInt64-between _
          (omega (arith, fits, b, +ℤ_parts (k *ℤ pos q) (pos q), -ℤ_parts raw (k *ℤ pos q)))
          (omega (arith, fits, b, +ℤ_parts (k *ℤ pos q) (pos q), -ℤ_parts raw (k *ℤ pos q)))

    up_distance : IsInt64 (k *ℤ pos q +ℤ pos q -ℤ raw)
    up_distance =
        IsInt64-between _
          (omega
            (arith, fits, b, +ℤ_parts (k *ℤ pos q) (pos q), -ℤ_parts (k *ℤ pos q +ℤ pos q) raw))
          (omega
            (arith, fits, b, +ℤ_parts (k *ℤ pos q) (pos q), -ℤ_parts (k *ℤ pos q +ℤ pos q) raw))

-- Where the size of the value and a positive quantum sum to at most 2 ^ 63 - 1, no operation of the
-- rounding overflows an int64_t. The rounded mantissa is an int64_t and a multiple of the quantum, and
-- lies where the mode asks: at or below the value by less than a quantum (down), at or above it by less
-- than a quantum (up), or within half a quantum of it, where a tie goes away from zero (nearest).
pub round_raw-RoundsTo :
    (raw : ℤ) (q : ℕ) (mode : RoundingMode)
    → 0 < q
    → magnitude raw + q ≤ int64_max
    → RoundsTo mode raw q (round_raw raw (pos q) mode)
      × IsMultiple (round_raw raw (pos q) mode) q
      × IsInt64 (round_raw raw (pos q) mode)
      × NoOverflow raw q
round_raw-RoundsTo raw q mode h fits =
    let (side, multiple) = round_raw-RoundsTo_pos raw q mode h in
    (side, multiple, IsInt64-rounded mode raw _ q fits side, rounding-NoOverflow raw q h fits)

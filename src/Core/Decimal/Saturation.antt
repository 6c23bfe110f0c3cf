-- ===== src/Core/Decimal/Saturation.antt =====
-- `mul` and `div`: truncation towards zero, and saturation instead of wrap-around.
use hyperliquid_cpp.Base.{
  ℕ, suc, ◌+◌, ◌*◌, ◌/◌, ◌≤◌, ◌<◌, ◌≡◌, refl, true, false, arith, Bool, ◌≢◌, div-add-mod, mod-lt,
  Bool-cases, inl, inr, ◌⊎◌, ==_iff,
}
use hyperliquid_cpp.Base.Int.{
  ℤ, pos, negsuc, ◌*ℤ◌, ◌≤ℤ◌, ◌<ℤ◌, tdiv, eq_ℤ, magnitude, IsInt64, int64_max, int64_min_value,
  signed, eq_of_parts, *ℤ-pos_parts,
}
use hyperliquid_cpp.Core.Decimal.{Decimal, from_raw, saturate, mul, div, is_saturated, scale}

-- `r` is the quotient of `n` by `d > 0` in absolute value, rounded towards zero.
abbrev pub Truncates : ℕ → ℕ → ℕ → Type 0
Truncates n d r = (d * r ≤ n) × (n < d * r + d)

-- The sign of a nonzero result is that of the exact value `v`.
abbrev pub KeepsSign : ℤ → ℤ → Type 0
KeepsSign v r = (pos 0 ≤ℤ v → pos 0 ≤ℤ r) × (v ≤ℤ pos 0 → r ≤ℤ pos 0)

-- Either the value itself, or the limit that it lies beyond.
saturate_cases :
    (v : ℤ)
    → IsInt64 (saturate v)
      × ((saturate v ≡ v)
          ⊎ (pos int64_max <ℤ v) × (saturate v ≡ pos int64_max)
          ⊎ (v <ℤ int64_min_value) × (saturate v ≡ int64_min_value))
unfolding saturate
saturate_cases (pos n) = ground arith
saturate_cases (negsuc n) = ground arith

magnitude-signed : (b : Bool) (n : ℕ) → magnitude (signed b n) ≡ n
magnitude-signed true n = ground arith
magnitude-signed false n = omega arith

tdiv-magnitude : (a b : ℤ) → magnitude (tdiv a b) ≡ magnitude a / magnitude b
unfolding tdiv
tdiv-magnitude a b = magnitude-signed _ _

tdiv-Truncates :
    (a b : ℤ) → 0 < magnitude b → Truncates (magnitude a) (magnitude b) (magnitude (tdiv a b))
tdiv-Truncates a b h =
    rw (tdiv-magnitude a b)
      (omega (arith, div-add-mod (magnitude a) (magnitude b), mod-lt (magnitude a) h))

tdiv-KeepsSign : (a : ℤ) (d : ℕ) → KeepsSign a (tdiv a (pos (suc d)))
unfolding tdiv
tdiv-KeepsSign (pos n) d = ground arith
tdiv-KeepsSign (negsuc n) d = ground arith

-- What a saturating operation makes of the exact quotient v / d.
abbrev pub IsSaturatingQuotient : ℤ → ℤ → Decimal → Type 0
IsSaturatingQuotient v d r =
    IsInt64 r.raw
    × (Truncates (magnitude v) (magnitude d) (magnitude r.raw)
        ⊎ (is_saturated r ≡ true) × (magnitude d * int64_max < magnitude v))

mul_far : (d m v : ℕ) → 0 < d → int64_max < m → d * m ≤ v → d * int64_max < v
mul_far d m v h k t = grind arith

saturate-KeepsSign : (v t : ℤ) → KeepsSign v t → KeepsSign v (saturate t)
unfolding saturate
saturate-KeepsSign v (pos n) k = ground (arith, k)
saturate-KeepsSign v (negsuc n) k = ground (arith, k)

saturate-tdiv :
    (v d : ℤ) → 0 < magnitude d → IsSaturatingQuotient v d (from_raw (saturate (tdiv v d)))
saturate-tdiv v d h =
    let (i, c) = saturate_cases (tdiv v d) in
    elim c [
      | inl e ↦ (i, inl (rw e (tdiv-Truncates v d h)))
      | inr (inl (beyond, e)) ↦ (i, inr (rw e refl, far (omega (arith, beyond))))
      | inr (inr (beyond, e)) ↦ (i, inr (rw e refl, far (omega (arith, beyond))))
    ]
  where
    far : int64_max < magnitude (tdiv v d) → magnitude d * int64_max < magnitude v
    far k = mul_far (magnitude d) (magnitude (tdiv v d)) (magnitude v) h k (tdiv-Truncates v d h).0

-- `mul` never wraps: its result is an int64_t, has the sign of the exact product, and is that
-- product divided by 10 ^ 8 and cut towards zero, or a limit where the exact value is out of range.
pub mul_saturates :
    (a b : Decimal)
    → IsSaturatingQuotient (a.raw *ℤ b.raw) (pos scale) (mul a b)
      × KeepsSign (a.raw *ℤ b.raw) (mul a b).raw
unfolding mul
mul_saturates a b = (
  saturate-tdiv (a.raw *ℤ b.raw) (pos scale) (omega arith),
  saturate-KeepsSign _ _ (tdiv-KeepsSign _ 99999999),
)

nonzero : (b : ℤ) → eq_ℤ b (pos 0) ≡ false → (b ≢ pos 0) × (0 < magnitude b)
nonzero (pos n) h = (λ e. ground arith, ground arith)
nonzero (negsuc n) h = (λ e. ground arith, ground arith)

-- The rule of signs for a quotient `r` of `a` by `b`; a zero counts as either sign.
abbrev pub HasQuotientSign : ℤ → ℤ → ℤ → Type 0
HasQuotientSign a b r =
    (pos 0 ≤ℤ a → pos 0 <ℤ b → pos 0 ≤ℤ r)
    × (a ≤ℤ pos 0 → pos 0 <ℤ b → r ≤ℤ pos 0)
    × (pos 0 ≤ℤ a → b <ℤ pos 0 → r ≤ℤ pos 0)
    × (a ≤ℤ pos 0 → b <ℤ pos 0 → pos 0 ≤ℤ r)

tdiv-HasQuotientSign : (a b : ℤ) → HasQuotientSign a b (tdiv a b)
unfolding tdiv
tdiv-HasQuotientSign (pos n) (pos m) = ground arith
tdiv-HasQuotientSign (pos n) (negsuc m) = ground arith
tdiv-HasQuotientSign (negsuc n) (pos m) = ground arith
tdiv-HasQuotientSign (negsuc n) (negsuc m) = ground arith

saturate-HasQuotientSign : (a b t : ℤ) → HasQuotientSign a b t → HasQuotientSign a b (saturate t)
unfolding saturate
saturate-HasQuotientSign a b (pos n) k = ground (arith, k)
saturate-HasQuotientSign a b (negsuc n) k = ground (arith, k)

scaled-HasQuotientSign : (a b r : ℤ) → HasQuotientSign (a *ℤ pos scale) b r → HasQuotientSign a b r
scaled-HasQuotientSign a b r k = ground (arith, k, *ℤ-pos_parts a scale)

-- `div` by zero is zero. Otherwise it is the exact quotient cut towards zero, or a limit where that
-- is out of range; and its sign follows the signs of both operands.
pub div_saturates :
    (a b : Decimal)
    → (b.raw ≡ pos 0 → (div a b).raw ≡ pos 0)
      × (b.raw ≢ pos 0 → IsSaturatingQuotient (a.raw *ℤ pos scale) b.raw (div a b))
      × HasQuotientSign a.raw b.raw (div a b).raw
unfolding div
div_saturates a b = elim (Bool-cases (eq_ℤ b.raw (pos 0))) [
  | inl z ↦ rw z (λ e. refl, λ ne. absurd (ne (eq_of_parts _ _ ((==_iff _ _).0 z))), omega arith)
  | inr nz ↦ rw nz (
    λ e. absurd ((nonzero b.raw nz).0 e),
    λ ne. saturate-tdiv (a.raw *ℤ pos scale) b.raw (nonzero b.raw nz).1,
    scaled-HasQuotientSign a.raw b.raw _ (
        saturate-HasQuotientSign (a.raw *ℤ pos scale) b.raw _
          (tdiv-HasQuotientSign (a.raw *ℤ pos scale) b.raw)),
  )
]

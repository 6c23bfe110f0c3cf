-- ===== src/Core/Decimal/Rounding.antt =====
-- `roundToQuantum` on integers: multiples of the quantum, and the side that the mode asks for.
pub mod Ranges
use hyperliquid_cpp.Base.{
  true, ℕ, suc, ◌+◌, ◌*◌, ◌/◌, ◌%◌, ◌≤◌, ◌<◌, ◌≡◌, refl, false, arith, ◌∙◌, ap, div-add-mod, mod-lt,
  Bool-cases, inl, inr, if◌then◌else◌, ◌==◌, ==_iff, sym, ◌⊎◌,
}
use hyperliquid_cpp.Base.Int.{
  ℤ, pos, negsuc, ◌+ℤ◌, ◌-ℤ◌, ◌*ℤ◌, ◌≤ℤ◌, ◌<ℤ◌, tdiv, tmod, eq_ℤ, lt_ℤ, le_ℤ, +ℤ_parts, -ℤ_parts,
  eq_of_parts, sub_ℕ, pos_part, neg_part, *ℤ-pos_parts, IsInt64, magnitude, int64_max,
}
use hyperliquid_cpp.Core.Decimal.{floor_multiple, pick, round_raw, RoundingMode}

-- The quotient rounded down, by the sign of the dividend.
floor_multiple-pos : (n q : ℕ) → floor_multiple (pos n) (pos q) ≡ pos (n / q)
unfolding floor_multiple tdiv tmod
floor_multiple-pos n q = ground arith

magnitudes : (n q : ℕ) → (0 + suc n ≡ suc n) × (q + 0 ≡ q)
magnitudes n q = omega arith

tdiv-negsuc : (n q : ℕ) → tdiv (negsuc n) (pos q) ≡ sub_ℕ 0 (suc n / q)
unfolding tdiv
tdiv-negsuc n q = rw ((magnitudes n q).0, (magnitudes n q).1)

tmod-negsuc : (n q : ℕ) → tmod (negsuc n) (pos q) ≡ sub_ℕ 0 (suc n % q)
unfolding tmod
tmod-negsuc n q = rw ((magnitudes n q).0, (magnitudes n q).1)

floor_multiple-negsuc :
    (n q : ℕ)
    → (pos_part (floor_multiple (negsuc n) (pos q)) ≡ 0)
      × (neg_part (floor_multiple (negsuc n) (pos q))
          ≡ suc n / q + (if suc n % q == 0 then 0 else 1))
unfolding floor_multiple ◌-ℤ◌
floor_multiple-negsuc n q = rw (tdiv-negsuc, tmod-negsuc) (ground arith)

-- The lower multiple is at most the value, and less than a quantum below it.
pub floor_multiple_bounds :
    (raw : ℤ) (q : ℕ)
    → 0 < q
    → (floor_multiple raw (pos q) *ℤ pos q ≤ℤ raw)
      × (raw <ℤ floor_multiple raw (pos q) *ℤ pos q +ℤ pos q)
floor_multiple_bounds (pos n) q h = rw floor_multiple-pos (
    omega (
      arith,
      *ℤ-pos_parts (pos (n / q)) q,
      +ℤ_parts (pos (n / q) *ℤ pos q) (pos q),
      div-add-mod n q,
      mod-lt n h,
    ))
floor_multiple_bounds (negsuc n) q h =
    let f : ℤ = floor_multiple (negsuc n) (pos q) in
    ground (
      arith,
      ap (λ (t : ℕ). t * q) (floor_multiple-negsuc n q).1,
      ap (λ (t : ℕ). t * q) (floor_multiple-negsuc n q).0,
      *ℤ-pos_parts f q,
      +ℤ_parts (f *ℤ pos q) (pos q),
      div-add-mod (suc n) q,
      mod-lt (suc n) h,
    )

-- What each mode asks of the result `r` for a value and a quantum `q`: below and above the value by
-- less than a quantum, or within half a quantum, where a tie goes away from zero.
abbrev pub RoundsTo : RoundingMode → ℤ → ℕ → ℤ → Type 0
RoundsTo RoundingMode.down raw q r = (r ≤ℤ raw) × (raw <ℤ r +ℤ pos q)
RoundsTo RoundingMode.up raw q r = (raw ≤ℤ r) × (r <ℤ raw +ℤ pos q)
RoundsTo RoundingMode.nearest raw q r =
    (r +ℤ r ≤ℤ raw +ℤ raw +ℤ pos q)
    × (raw +ℤ raw ≤ℤ r +ℤ r +ℤ pos q)
    × (r +ℤ r ≡ raw +ℤ raw +ℤ pos q → pos 0 ≤ℤ raw)
    × (raw +ℤ raw ≡ r +ℤ r +ℤ pos q → raw <ℤ pos 0)

-- The parts of twice a value, and of that plus the quantum.
module _ (x : ℤ) (q : ℕ) where
  pub doubled : pos_part (x +ℤ x) + 2 * neg_part x ≡ neg_part (x +ℤ x) + 2 * pos_part x
  doubled = omega (arith, +ℤ_parts x x)

  pub doubled_plus :
      pos_part (x +ℤ x +ℤ pos q) + 2 * neg_part x ≡ neg_part (x +ℤ x +ℤ pos q) + 2 * pos_part x + q
  doubled_plus = omega (arith, doubled, +ℤ_parts (x +ℤ x) (pos q))

eq_parts : {a b : ℤ} → a ≡ b → pos_part a + neg_part b ≡ pos_part b + neg_part a
eq_parts {b = b} e = rw e (omega arith)

-- `r` is within half of `q` of `raw`, with a tie on the right side, in numbers.
abbrev IsNear : ℤ → ℤ → ℕ → Type 0
IsNear raw r q =
    (2 * pos_part r + 2 * neg_part raw ≤ 2 * pos_part raw + 2 * neg_part r + q)
    × (2 * pos_part raw + 2 * neg_part r ≤ 2 * pos_part r + 2 * neg_part raw + q)
    × (2 * pos_part r + 2 * neg_part raw ≡ 2 * pos_part raw + 2 * neg_part r + q → pos 0 ≤ℤ raw)
    × (2 * pos_part raw + 2 * neg_part r ≡ 2 * pos_part r + 2 * neg_part raw + q → raw <ℤ pos 0)

IsNear-RoundsTo : (raw r : ℤ) (q : ℕ) → IsNear raw r q → RoundsTo RoundingMode.nearest raw q r
IsNear-RoundsTo raw r q (lo, hi, tie_up, tie_down) = (
  omega (arith, doubled r q, doubled_plus raw q),
  omega (arith, doubled raw q, doubled_plus r q),
  λ e. tie_up (omega (arith, eq_parts e, doubled r q, doubled_plus raw q)),
  λ e. tie_down (omega (arith, eq_parts e, doubled raw q, doubled_plus r q)),
)

module _ (raw lo : ℤ) (q : ℕ) (below : lo ≤ℤ raw) (above : raw <ℤ lo +ℤ pos q) where
  -- The parts of the higher multiple and of the two distances.
  hi_parts : pos_part (lo +ℤ pos q) + neg_part lo ≡ neg_part (lo +ℤ pos q) + pos_part lo + q
  hi_parts = omega (arith, +ℤ_parts lo (pos q))

  pick-RoundsTo :
      (mode : RoundingMode) → lo <ℤ raw → RoundsTo mode raw q (pick mode raw lo (lo +ℤ pos q))
  unfolding pick
  pick-RoundsTo RoundingMode.down h = (below, above)
  pick-RoundsTo RoundingMode.up h =
      omega (arith, +ℤ_parts lo (pos q), +ℤ_parts raw (pos q), above, h)
  pick-RoundsTo RoundingMode.nearest h = elim (Bool-cases (eq_ℤ (raw -ℤ lo) (lo +ℤ pos q -ℤ raw))) [
    | inl t ↦ elim (Bool-cases (le_ℤ (pos 0) raw)) [
      | inl s ↦
          rw (t, s)
            (IsNear-RoundsTo raw (lo +ℤ pos q) q
              (ground (arith, hi_parts, -ℤ_parts raw lo, -ℤ_parts (lo +ℤ pos q) raw)))
      | inr s ↦
          rw (t, s)
            (IsNear-RoundsTo raw lo q
              (ground (arith, hi_parts, -ℤ_parts raw lo, -ℤ_parts (lo +ℤ pos q) raw)))
    ]
    | inr t ↦ elim (Bool-cases (lt_ℤ (raw -ℤ lo) (lo +ℤ pos q -ℤ raw))) [
      | inl s ↦
          rw (t, s)
            (IsNear-RoundsTo raw lo q
              (ground (arith, hi_parts, -ℤ_parts raw lo, -ℤ_parts (lo +ℤ pos q) raw)))
      | inr s ↦
          rw (t, s)
            (IsNear-RoundsTo raw (lo +ℤ pos q) q
              (ground (arith, hi_parts, -ℤ_parts raw lo, -ℤ_parts (lo +ℤ pos q) raw)))
    ]
  ]

exact-RoundsTo : (raw : ℤ) (q : ℕ) (mode : RoundingMode) → 1 < q → RoundsTo mode raw q raw
exact-RoundsTo raw q RoundingMode.down h = omega (arith, +ℤ_parts raw (pos q))
exact-RoundsTo raw q RoundingMode.up h = omega (arith, +ℤ_parts raw (pos q))
exact-RoundsTo raw q RoundingMode.nearest h = IsNear-RoundsTo raw raw q (omega arith)

abbrev pub IsMultiple : ℤ → ℕ → Type 0
IsMultiple r q = (k : ℤ) × (r ≡ k *ℤ pos q)

next-IsMultiple : (k : ℤ) (q : ℕ) → IsMultiple (k *ℤ pos q +ℤ pos q) q
next-IsMultiple k q = (
  k +ℤ pos 1,
  eq_of_parts _ _ (
      omega (
        arith,
        *ℤ-pos_parts k q,
        +ℤ_parts (k *ℤ pos q) (pos q),
        *ℤ-pos_parts (k +ℤ pos 1) q,
        ap (λ (t : ℕ). t * q) (+ℤ_parts k (pos 1)),
      )),
)

pick_cases :
    (mode : RoundingMode) (raw lo hi : ℤ) → (pick mode raw lo hi ≡ lo) ⊎ (pick mode raw lo hi ≡ hi)
unfolding pick
pick_cases RoundingMode.down raw lo hi = inl refl
pick_cases RoundingMode.up raw lo hi = inr refl
pick_cases RoundingMode.nearest raw lo hi = elim (Bool-cases (eq_ℤ (raw -ℤ lo) (hi -ℤ raw))) [
  | inl t ↦ elim (Bool-cases (le_ℤ (pos 0) raw)) [
    | inl s ↦ inr (rw (t, s))
    | inr s ↦ inl (rw (t, s))
  ]
  | inr t ↦ elim (Bool-cases (lt_ℤ (raw -ℤ lo) (hi -ℤ raw))) [
    | inl s ↦ inl (rw (t, s))
    | inr s ↦ inr (rw (t, s))
  ]
]

pick-IsMultiple :
    (mode : RoundingMode) (raw k : ℤ) (q : ℕ)
    → IsMultiple (pick mode raw (k *ℤ pos q) (k *ℤ pos q +ℤ pos q)) q
pick-IsMultiple mode raw k q = elim (pick_cases mode raw (k *ℤ pos q) (k *ℤ pos q +ℤ pos q)) [
  | inl e ↦ (k, e)
  | inr e ↦ let (m, e') = next-IsMultiple k q in (m, e ∙ e')
]

round_raw-RoundsTo_large :
    (raw : ℤ) (q : ℕ) (mode : RoundingMode)
    → 1 < q
    → RoundsTo mode raw q (round_raw raw (pos q) mode) × IsMultiple (round_raw raw (pos q) mode) q
unfolding round_raw
round_raw-RoundsTo_large raw q mode h = elim (Bool-cases (eq_ℤ lo raw)) [
  | inl t ↦
      rw (large, t)
        (
          exact-RoundsTo raw q mode h,
          (floor_multiple raw (pos q), sym (eq_of_parts lo raw ((==_iff _ _).0 t))),
        )
  | inr t ↦
      rw (large, t)
        (
          pick-RoundsTo raw lo q b.0 b.1 mode (ground (arith, b)),
          pick-IsMultiple mode raw (floor_multiple raw (pos q)) q,
        )
]
  where
    lo : ℤ
    lo = floor_multiple raw (pos q) *ℤ pos q

    b : (lo ≤ℤ raw) × (raw <ℤ lo +ℤ pos q)
    b = floor_multiple_bounds raw q (omega arith)

    large : le_ℤ (pos q) (pos 1) ≡ false
    large = ground arith

-- The same for every positive quantum, also for 1, which leaves the value as it is.
pub round_raw-RoundsTo_pos :
    (raw : ℤ) (q : ℕ) (mode : RoundingMode)
    → 0 < q
    → RoundsTo mode raw q (round_raw raw (pos q) mode) × IsMultiple (round_raw raw (pos q) mode) q
unfolding round_raw
round_raw-RoundsTo_pos raw q mode h = elim (Bool-cases (q == 1)) [
  | inl one ↦ rw (unit one) (exact mode, (raw, eq_of_parts _ _ (omega (arith, *ℤ-pos_parts raw 1))))
  | inr more ↦ round_raw-RoundsTo_large raw q mode (ground arith)
]
  where
    unit : (q == 1) ≡ true → q ≡ 1
    unit e = ground arith

    exact : (m : RoundingMode) → RoundsTo m raw 1 raw
    exact RoundingMode.down = omega (arith, +ℤ_parts raw (pos 1))
    exact RoundingMode.up = omega (arith, +ℤ_parts raw (pos 1))
    exact RoundingMode.nearest = IsNear-RoundsTo raw raw 1 (omega arith)

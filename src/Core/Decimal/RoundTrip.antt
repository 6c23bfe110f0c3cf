-- ===== src/Core/Decimal/RoundTrip.antt =====
-- The printed form of a decimal parses to that decimal.
mod Loops
use hyperliquid_cpp.Base.{
  ℕ, zero, suc, ◌+◌, ◌-◌, ◌*◌, ◌/◌, ◌%◌, ◌^◌, ◌≤◌, ◌<◌, ◌≡◌, refl, true, false, some, none, List,
  ◌∷◌, [], arith, pow-suc, Option, Bool, ◌∙◌, ◌≢◌, ap, Bool-cases, ◌==◌, inl, inr, ==_iff,
  if◌then◌else◌,
}
use native.Mathlib.Nat.{zero-add}
use mathlib.Core.Path.{subst}
use mathlib.Core.Option.{some-injective}
use hyperliquid_cpp.Base.Int.{ℤ, int64_max, neg_ℤ, pos, negsuc, IsInt64, int64_min_value}
use hyperliquid_cpp.Core.Decimal.{
  int_loop, frac_loop, put_int, put_frac, trim_zeros, pad, parse, to_chars, to_chars_magnitude,
  from_raw, scale, put_fraction, finish, parse_unsigned, parse_fraction, Decimal,
}
use hyperliquid_cpp.Core.Decimal.RoundTrip.Loops.{
  int_loop_digit, frac_loop_digit, int_loop-put_int, put_int_total, frac_loop-put_frac, pow_step,
  IsTrimmed, untrimmed, widen, trim_zeros-IsTrimmed, frac_loop_end, le-mul-pow, pad_lem, pow_split,
  scaled_mantissa,
}

-- What the parser does behind the integer part.
parse_rest : Bool → ℕ → List ℕ → Option Decimal
parse_rest negative m text =
    elim (parse_fraction (record { mantissa = m; any_digit = true; rest = text })) [
      | none ↦ none
      | some r ↦ finish negative r
    ]

abbrev signed_decimal : Bool → ℕ → Decimal
signed_decimal negative n = from_raw (if negative then neg_ℤ (pos n) else pos n)

put_fraction_zero : put_fraction 0 ≡ []
unfolding put_fraction
put_fraction_zero = refl

put_fraction_pos :
    (frac : ℕ)
    → 0 < frac
    → put_fraction frac ≡ b'.' ∷ put_frac (trim_zeros 8 8 frac).0 (trim_zeros 8 8 frac).1 []
unfolding put_fraction
put_fraction_pos frac h = ground arith

parse_rest-put_fraction :
    (negative : Bool) (m frac : ℕ)
    → frac < scale
    → m * scale + frac ≤ int64_max
    → parse_rest negative m (put_fraction frac) ≡ some (signed_decimal negative (m * scale + frac))
unfolding parse_fraction finish parse_rest
parse_rest-put_fraction negative m zero h b = rw put_fraction_zero (
    let e : m * 10 ^ 8 ≡ m * scale + 0 = omega arith in
    rw (pad_lem 8 m (omega arith)) (ap (λ (t : ℕ). some (signed_decimal negative t)) e))
parse_rest-put_fraction negative m (suc frac) h b = rw (
  put_fraction_pos (suc frac) (omega arith),
  frac_loop-put_frac r.0 r.1 m 0 [] t.fits (omega (arith, t.narrower)) small,
  frac_loop_end,
  zero-add r.0,
  pad_lem (8 - r.0) (m * 10 ^ r.0 + r.1) (omega (arith, e)),
  e,
  parse_rest,
  parse_fraction,
)
  where
    r : ℕ × ℕ
    r = trim_zeros 8 8 (suc frac)

    t : IsTrimmed 8 (suc frac) r
    t = trim_zeros-IsTrimmed 8 8 (suc frac) (omega arith) h

    e : (m * 10 ^ r.0 + r.1) * 10 ^ (8 - r.0) ≡ m * scale + suc frac
    e = scaled_mantissa m (suc frac) r.0 r.1 t.narrower t.scaled

    small : m * 10 ^ r.0 + r.1 ≤ int64_max
    small = omega (arith, e, le-mul-pow (m * 10 ^ r.0 + r.1) (8 - r.0))

-- The integer loop stops in front of what `put_fraction` wrote.
int_loop-put_fraction :
    (frac m : ℕ)
    → int_loop (put_fraction frac) m true
      ≡ some (record { mantissa = m; any_digit = true; rest = put_fraction frac })
unfolding int_loop put_fraction
int_loop-put_fraction frac m = ground arith

pub parse_unsigned-put :
    (negative : Bool) (n : ℕ) (out : List ℕ)
    → n ≤ int64_max
    → put_int 24 (n / scale) (put_fraction (n % scale)) ≡ some out
    → parse_unsigned negative out ≡ some (signed_decimal negative n)
unfolding parse_unsigned parse_rest
parse_unsigned-put negative n out h e =
    let v : n / scale * scale + n % scale ≡ n = omega arith in
    rw
      (
        int_loop-put_int 24 (n / scale) _ out false (omega arith) e,
        int_loop-put_fraction (n % scale) (n / scale),
        parse_unsigned,
      )
      (parse_rest-put_fraction negative (n / scale) (n % scale) (omega arith) (omega arith) ∙ rw v)

abbrev StartsWithDigit : List ℕ → Type 0
StartsWithDigit [] = ⊥
StartsWithDigit (c ∷ cs) = (b'0' ≤ c) × (c ≤ b'9')

put_int-StartsWithDigit :
    (fuel n : ℕ) (buf : List ℕ) (out : List ℕ) → put_int fuel n buf ≡ some out → StartsWithDigit out
unfolding put_int
put_int-StartsWithDigit zero n buf out e = ground arith
put_int-StartsWithDigit (suc fuel) n buf out e = elim (Bool-cases (n / 10 == 0)) [
  | inl done ↦
      let e' : some ((b'0' + n % 10) ∷ buf) ≡ some out = rw done at e in
      subst StartsWithDigit (some-injective _ _ e') (omega arith)
  | inr more ↦ put_int-StartsWithDigit fuel (n / 10) ((b'0' + n % 10) ∷ buf) out (rw more at e)
]

parse-digit-first : (out : List ℕ) → StartsWithDigit out → parse out ≡ parse_unsigned false out
unfolding parse
parse-digit-first [] h = absurd h
parse-digit-first (c ∷ cs) h = ground arith

parse-minus : (out : List ℕ) → parse (b'-' ∷ out) ≡ parse_unsigned true out
unfolding parse
parse-minus out = refl

-- The digits and the fraction of a 64-bit magnitude are written within the fuel.
pub written :
    (n : ℕ)
    → n ≤ int64_max + 1
    → (out : List ℕ) × (put_int 24 (n / scale) (put_fraction (n % scale)) ≡ some out)
      × StartsWithDigit out
written n h =
    let (out, e) = put_int_total 23 (n / scale) (put_fraction (n % scale)) (omega arith) in
    (out, e, put_int-StartsWithDigit 24 (n / scale) (put_fraction (n % scale)) out e)

neg_le : (n : ℕ) → IsInt64 (negsuc n) → negsuc n ≢ int64_min_value → n + 1 ≤ int64_max
neg_le n h k = omega (arith, h.1, λ (e : n ≡ int64_max). k (ap negsuc e))

neg_ℤ-suc : (n : ℕ) → neg_ℤ (pos (suc n)) ≡ negsuc n
unfolding neg_ℤ
neg_ℤ-suc n = ground arith

-- `to_chars` writes every int64_t mantissa but the least one to a text that `parse` reads back as
-- that same decimal.
pub parse-to_chars :
    (d : Decimal)
    → IsInt64 d.raw
    → d.raw ≢ int64_min_value
    → (out : List ℕ) × (to_chars d ≡ some out) × (parse out ≡ some d)
unfolding to_chars to_chars_magnitude
parse-to_chars d h k = by_sign d.raw h k
  where
    by_sign :
        (r : ℤ)
        → IsInt64 r
        → r ≢ int64_min_value
        → (out : List ℕ) × (to_chars (from_raw r) ≡ some out) × (parse out ≡ some (from_raw r))
    by_sign (pos n) h k =
        let (out, e, first) = written n (omega arith) in
        (
          out,
          rw (e, to_chars),
          parse-digit-first out first ∙ parse_unsigned-put false n out (omega arith) e,
        )
    by_sign (negsuc n) h k =
        let e' : n + 1 ≡ suc n = omega arith in
        let (out, e, first) = written (n + 1) (omega arith) in
        (
          b'-' ∷ out,
          rw (e, to_chars),
          parse-minus out
              ∙ parse_unsigned-put true (n + 1) out (neg_le n h k) e
              ∙ rw (e', neg_ℤ-suc n),
        )

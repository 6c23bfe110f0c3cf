-- ===== src/Core/Decimal/Parse.antt =====
-- What `parse` makes of a text of digits: the exact value, cut at the eighth decimal.
use hyperliquid_cpp.Base.{
  ℕ, zero, suc, ◌+◌, ◌-◌, ◌*◌, ◌/◌, ◌%◌, ◌≤◌, ◌<◌, ◌≡◌, refl, true, false, some, none, List, ◌∷◌,
  [], ◌++◌, All, arith, Option, Bool, ◌∙◌, Bool-cases, inl, inr, if◌then◌else◌, leb, map, leb→le,
  ltb,
}
use hyperliquid_cpp.Base.Int.{int64_max, neg_ℤ, pos}
use hyperliquid_cpp.Core.Decimal.{
  int_loop, frac_loop, pad, Scan, parse, from_raw, u64, finish, parse_unsigned, parse_fraction,
  Decimal,
}

abbrev pub IsDigit : ℕ → Type 0
IsDigit d = d < 10

-- The value of decimal digits, most significant first, behind the value `acc`.
abbrev pub digits_value : ℕ → List ℕ → ℕ
digits_value acc [] = acc
digits_value acc (d ∷ ds) = digits_value (acc * 10 + d) ds

abbrev pub text : List ℕ → List ℕ
text ds = map (λ d. b'0' + d) ds

-- The first `n` digits, with zeros where there are fewer.
abbrev pub first_digits : ℕ → List ℕ → List ℕ
first_digits zero ds = []
first_digits (suc n) [] = 0 ∷ first_digits n []
first_digits (suc n) (d ∷ ds) = d ∷ first_digits n ds

le-digits_value : (acc : ℕ) (ds : List ℕ) → acc ≤ digits_value acc ds
le-digits_value acc [] = omega arith
le-digits_value acc (d ∷ ds) = omega (arith, le-digits_value (acc * 10 + d) ds)

-- One digit in each loop.
int_loop_step :
    (d m : ℕ) (any : Bool) (rest : List ℕ)
    → d < 10
    → int_loop ((b'0' + d) ∷ rest) m any
      ≡ (if leb (m * 10 + d) int64_max then int_loop rest (m * 10 + d) true else none)
unfolding int_loop
int_loop_step d m any rest h = ground arith

frac_loop_step :
    (d m f : ℕ) (any : Bool) (rest : List ℕ)
    → d < 10
    → f < 8
    → frac_loop ((b'0' + d) ∷ rest) m f any
      ≡ (if leb (m * 10 + d) int64_max then frac_loop rest (m * 10 + d) (f + 1) true else none)
unfolding frac_loop
frac_loop_step d m f any rest h k = ground arith

frac_loop_drop :
    (d m : ℕ) (any : Bool) (rest : List ℕ)
    → d < 10
    → frac_loop ((b'0' + d) ∷ rest) m 8 any ≡ frac_loop rest m 8 true
unfolding frac_loop
frac_loop_drop d m any rest h = ground arith

pad_step :
    (k m : ℕ) → pad (suc k) m ≡ (if leb (m * 10 + 0) int64_max then pad k (m * 10 + 0) else none)
unfolding pad
pad_step k m = elim (Bool-cases (leb (m * 10 + 0) int64_max)) [
  | inl t ↦
      let le : m * 10 + 0 ≤ int64_max = leb→le _ _ t in
      let e : m * 10 % u64 ≡ m * 10 + 0 = omega arith in
      let u : ltb (int64_max / 10) m ≡ false = ground arith in rw (t, u, e)
  | inr t ↦ let u : ltb (int64_max / 10) m ≡ true = ground arith in rw (t, u)
]

-- A result that is kept exactly if the value is at most the largest int64_t.
abbrev checked {ℓ} : {A : Type ℓ} → ℕ → Option A → Option A
checked v o = if leb v int64_max then o else none

-- A value that only grows is checked at its end.
checked_step {ℓ} :
    {A : Type ℓ} (v w : ℕ) (x o : Option A)
    → v ≤ w
    → (v ≤ int64_max → x ≡ checked w o)
    → checked v x ≡ checked w o
checked_step v w x o h f = elim (Bool-cases (leb v int64_max)) [
  | inl t ↦ rw t (f (leb→le v int64_max t))
  | inr t ↦ let u : leb w int64_max ≡ false = ground arith in rw (t, u)
]

-- The integer loop reads the digits, or fails exactly if their value passes int64_t.
int_loop-text :
    (ds : List ℕ) (acc : ℕ) (rest : List ℕ)
    → All IsDigit ds
    → acc ≤ int64_max
    → int_loop (text ds ++ rest) acc true
      ≡ checked (digits_value acc ds) (int_loop rest (digits_value acc ds) true)
int_loop-text [] acc rest h k = ground arith
int_loop-text (d ∷ ds) acc rest h k =
    int_loop_step d acc true (text ds ++ rest) h.0
    ∙ checked_step (acc * 10 + d) _ _ _ (le-digits_value (acc * 10 + d) ds)
        (int_loop-text ds (acc * 10 + d) rest h.1)

-- Scaling up is reading zeros.
pad-first_digits :
    (k m : ℕ)
    → m ≤ int64_max
    → pad k m
      ≡ checked (digits_value m (first_digits k [])) (some (digits_value m (first_digits k [])))
pad-first_digits zero m h = unfold pad in ground arith
pad-first_digits (suc k) m h =
    pad_step k m
    ∙ checked_step (m * 10 + 0) _ _ _ (le-digits_value (m * 10 + 0) (first_digits k []))
        (pad-first_digits k (m * 10 + 0))

-- The fraction loop and what follows it.
finish_loop : Bool → Option (ℕ × Scan) → Option Decimal
finish_loop negative o = elim o [ none ↦ none | some r ↦ finish negative r ]

abbrev pub signed_decimal : Bool → ℕ → Decimal
signed_decimal negative n = from_raw (if negative then neg_ℤ (pos n) else pos n)

-- The scaled value with its sign.
scaled : Bool → Option ℕ → Option Decimal
scaled negative o = elim o [ none ↦ none | some v ↦ some (signed_decimal negative v) ]

finish_end :
    (negative : Bool) (f m : ℕ)
    → finish_loop negative (frac_loop [] m f true) ≡ scaled negative (pad (8 - f) m)
unfolding finish_loop frac_loop finish scaled
finish_end negative f m = refl

finish_checked :
    (negative : Bool) (v : ℕ)
    → scaled negative (checked v (some v)) ≡ checked v (some (signed_decimal negative v))
unfolding scaled
finish_checked negative v = elim (Bool-cases (leb v int64_max)) [ inl t ↦ rw t | inr t ↦ rw t ]

finish_loop-checked :
    (negative : Bool) (v : ℕ) (o : Option (ℕ × Scan))
    → finish_loop negative (checked v o) ≡ checked v (finish_loop negative o)
unfolding finish_loop
finish_loop-checked negative v o = elim (Bool-cases (leb v int64_max)) [
  | inl t ↦ rw t
  | inr t ↦ rw t
]

frac_loop-text :
    (negative : Bool) (k f m : ℕ) (ds : List ℕ)
    → f + k ≡ 8
    → All IsDigit ds
    → m ≤ int64_max
    → finish_loop negative (frac_loop (text ds) m f true)
      ≡ checked
          (digits_value m (first_digits k ds))
          (some (signed_decimal negative (digits_value m (first_digits k ds))))
frac_loop-text negative k f m [] e h b =
    let e' : 8 - f ≡ k = omega arith in
    finish_end negative f m ∙ rw (e', pad-first_digits k m b) (finish_checked negative _)
frac_loop-text negative zero f m (d ∷ ds) e h b =
    let e' : f ≡ 8 = omega arith in
    rw (e', frac_loop_drop d m true (text ds) h.0) (frac_loop-text negative zero 8 m ds refl h.1 b)
frac_loop-text negative (suc k) f m (d ∷ ds) e h b =
    rw (frac_loop_step d m f true (text ds) h.0 (omega arith)) (
      finish_loop-checked negative (m * 10 + d) _
      ∙ checked_step (m * 10 + d) _ _ _ (le-digits_value (m * 10 + d) (first_digits k ds))
          (frac_loop-text negative k (f + 1) (m * 10 + d) ds (omega arith) h.1))

-- What the parser does at the end of the integer part.
behind_int : Bool → ℕ → List ℕ → Option Decimal
unfolding finish_loop
behind_int negative v rest = elim (int_loop rest v true) [
  | none ↦ none
  | some s ↦ finish_loop negative (parse_fraction s)
]

-- What stands behind the integer part: nothing, or a point and digits.
abbrev pub fraction_text : Option (List ℕ) → List ℕ
fraction_text none = []
fraction_text (some fs) = b'.' ∷ text fs

abbrev pub fraction_digits : Option (List ℕ) → List ℕ
fraction_digits none = []
fraction_digits (some fs) = fs

-- The mantissa that the digits stand for, cut after eight decimals.
pub mantissa_of : List ℕ → Option (List ℕ) → ℕ
mantissa_of ds o = digits_value (digits_value 0 ds) (first_digits 8 (fraction_digits o))

fraction_checked :
    (negative : Bool) (v : ℕ) (o : Option (List ℕ))
    → All IsDigit (fraction_digits o)
    → v ≤ int64_max
    → behind_int negative v (fraction_text o)
      ≡ checked
          (digits_value v (first_digits 8 (fraction_digits o)))
          (some (signed_decimal negative (digits_value v (first_digits 8 (fraction_digits o)))))
unfolding behind_int int_loop parse_fraction
fraction_checked negative v none h b =
    unfold frac_loop in frac_loop-text negative 8 0 v [] refl tt b
fraction_checked negative v (some fs) h b = frac_loop-text negative 8 0 v fs refl h b

parse_unsigned-behind :
    (negative : Bool) (out rest : List ℕ) (v : ℕ)
    → int_loop out 0 false ≡ checked v (int_loop rest v true)
    → parse_unsigned negative out ≡ checked v (behind_int negative v rest)
unfolding parse_unsigned behind_int
parse_unsigned-behind negative out rest v e = elim (Bool-cases (leb v int64_max)) [
  | inl t ↦ rw (e, t, parse_unsigned)
  | inr t ↦ rw (e, t, parse_unsigned)
]

int_loop-digits :
    (d : ℕ) (ds rest : List ℕ)
    → d < 10
    → All IsDigit ds
    → int_loop (text (d ∷ ds) ++ rest) 0 false
      ≡ checked (digits_value 0 (d ∷ ds)) (int_loop rest (digits_value 0 (d ∷ ds)) true)
int_loop-digits d ds rest h k =
    int_loop_step d 0 false (text ds ++ rest) h
    ∙ checked_step (0 * 10 + d) _ _ _ (le-digits_value (0 * 10 + d) ds)
        (int_loop-text ds (0 * 10 + d) rest k)

abbrev pub sign_text : Bool → List ℕ
sign_text true = b'-' ∷ []
sign_text false = []

parse_unsigned-digits :
    (negative : Bool) (d : ℕ) (ds : List ℕ) (o : Option (List ℕ))
    → d < 10
    → All IsDigit ds
    → All IsDigit (fraction_digits o)
    → parse_unsigned negative (text (d ∷ ds) ++ fraction_text o)
      ≡ checked (mantissa_of (d ∷ ds) o) (some (signed_decimal negative (mantissa_of (d ∷ ds) o)))
unfolding mantissa_of
parse_unsigned-digits negative d ds o h k l =
    parse_unsigned-behind negative _ (fraction_text o) v
      (int_loop-digits d ds (fraction_text o) h k)
    ∙ checked_step v _ _ _ (le-digits_value v (first_digits 8 (fraction_digits o)))
        (fraction_checked negative v o l)
  where
    v : ℕ
    v = digits_value 0 (d ∷ ds)

-- A text of an optional minus, digits, and optionally a point with any number of digits is parsed
-- to the exact mantissa of its digits cut after eight decimals where that magnitude is at most
-- 2 ^ 63 - 1, and is refused otherwise. With a minus this refuses the magnitude 2 ^ 63 as well, though
-- its negation, the least int64_t, would fit.
pub parse-digits :
    (negative : Bool) (d : ℕ) (ds : List ℕ) (o : Option (List ℕ))
    → d < 10
    → All IsDigit ds
    → All IsDigit (fraction_digits o)
    → parse (sign_text negative ++ (text (d ∷ ds) ++ fraction_text o)) ≡ (
        if leb (mantissa_of (d ∷ ds) o) int64_max
        then some (signed_decimal negative (mantissa_of (d ∷ ds) o))
        else none)
unfolding parse
parse-digits true d ds o h k l = parse_unsigned-digits true d ds o h k l
parse-digits false d ds o h k l = ground (arith, parse_unsigned-digits false d ds o h k l)

-- ===== src/Core/Decimal/Runs.antt =====
-- Runs of the decimal's operations, and its theorems at concrete inputs.
use hyperliquid_cpp.Base.{
  ℕ, ◌≤◌, ◌≡◌, refl, List, ◌∷◌, ◌++◌, [], some, none, arith, length, true, if◌then◌else◌, leb,
  codes, ◌≢◌,
}
use hyperliquid_cpp.Base.Int.{pos, negsuc, int64_max, int64_min_value, neg_ℤ, ◌*ℤ◌, IsInt64}
use hyperliquid_cpp.Core.Decimal.{
  parse, to_chars, from_raw, round_raw, RoundingMode, mul, div, put_int, put_frac, trim_zeros,
  put_fraction, to_chars_magnitude, parse_unsigned, int_loop, frac_loop, pad, finish,
  parse_fraction,
}
use hyperliquid_cpp.Core.Decimal.RoundTrip.{parse-to_chars}
use hyperliquid_cpp.Core.Decimal.Parse.{
  parse-digits, mantissa_of, signed_decimal, text, fraction_text,
}
use hyperliquid_cpp.Core.Decimal.Rounding.{RoundsTo, IsMultiple}
use hyperliquid_cpp.Core.Decimal.Rounding.Ranges.{round_raw-RoundsTo, NoOverflow}
use hyperliquid_cpp.Core.Decimal.Saturation.{
  mul_saturates, div_saturates, IsSaturatingQuotient, KeepsSign, HasQuotientSign,
}
use hyperliquid_cpp.Core.Decimal.Length.{length-to_chars}

print_small : to_chars (from_raw (negsuc 17113)) ≡ some (codes "-0.00017114")
unfolding to_chars put_int put_frac trim_zeros put_fraction to_chars_magnitude
print_small = refl

parse_small : parse (codes "-0.000171140000") ≡ some (from_raw (negsuc 17113))
unfolding parse parse_unsigned int_loop frac_loop pad finish parse_fraction neg_ℤ
parse_small = refl

-- The least int64_t prints to a text that does not parse.
least_raw_unparsed : parse (codes "-92233720368.54775808") ≡ none
unfolding parse parse_unsigned int_loop frac_loop pad finish parse_fraction neg_ℤ
least_raw_unparsed = refl

least_raw_printed : to_chars (from_raw int64_min_value) ≡ some (codes "-92233720368.54775808")
unfolding to_chars put_int put_frac trim_zeros put_fraction to_chars_magnitude
least_raw_printed = refl

parse-to_chars_example :
    (out : List ℕ) × (to_chars (from_raw (negsuc 17113)) ≡ some out)
    × (parse out ≡ some (from_raw (negsuc 17113)))
parse-to_chars_example = parse-to_chars (from_raw (negsuc 17113)) (omega arith) (λ e. ground arith)

parse-digits_example : parse (codes "-" ++ (text (1 ∷ 2 ∷ []) ++ fraction_text (some (5 ∷ [])))) ≡ (
    if leb (mantissa_of (1 ∷ 2 ∷ []) (some (5 ∷ []))) int64_max
    then some (signed_decimal true (mantissa_of (1 ∷ 2 ∷ []) (some (5 ∷ []))))
    else none)
parse-digits_example =
    parse-digits true 1 (2 ∷ []) (some (5 ∷ [])) (omega arith) (omega arith) (omega arith)

round_raw-RoundsTo_example :
    RoundsTo RoundingMode.nearest
      (negsuc 24)
      10
      (round_raw (negsuc 24) (pos 10) RoundingMode.nearest)
    × IsMultiple (round_raw (negsuc 24) (pos 10) RoundingMode.nearest) 10
    × IsInt64 (round_raw (negsuc 24) (pos 10) RoundingMode.nearest)
    × NoOverflow (negsuc 24) 10
round_raw-RoundsTo_example =
    round_raw-RoundsTo (negsuc 24) 10 RoundingMode.nearest (omega arith) (omega arith)

mul_saturates_example :
    IsSaturatingQuotient
      (negsuc 6 *ℤ pos 5)
      (pos 100000000)
      (mul (from_raw (negsuc 6)) (from_raw (pos 5)))
    × KeepsSign (negsuc 6 *ℤ pos 5) (mul (from_raw (negsuc 6)) (from_raw (pos 5))).raw
mul_saturates_example = mul_saturates (from_raw (negsuc 6)) (from_raw (pos 5))

div_saturates_example :
    (negsuc 4 ≡ pos 0 → (div (from_raw (pos 7)) (from_raw (negsuc 4))).raw ≡ pos 0)
    × (negsuc 4 ≢ pos 0
        → IsSaturatingQuotient
            (pos 7 *ℤ pos 100000000)
            (negsuc 4)
            (div (from_raw (pos 7)) (from_raw (negsuc 4))))
    × HasQuotientSign (pos 7) (negsuc 4) (div (from_raw (pos 7)) (from_raw (negsuc 4))).raw
div_saturates_example = div_saturates (from_raw (pos 7)) (from_raw (negsuc 4))

length-to_chars_example :
    (out : List ℕ) × (to_chars (from_raw int64_min_value) ≡ some out) × (length out ≤ 21)
length-to_chars_example = length-to_chars (from_raw int64_min_value) (omega arith)

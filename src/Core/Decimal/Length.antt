-- ===== src/Core/Decimal/Length.antt =====
-- The size of the printed form against the buffer of `toChars`.
use hyperliquid_cpp.Base.{
  ℕ, zero, suc, ◌+◌, ◌-◌, ◌/◌, ◌%◌, ◌^◌, ◌≤◌, ◌<◌, ◌≡◌, List, ◌∷◌, [], some, arith, pow-suc, length,
}
use hyperliquid_cpp.Base.Int.{ℤ, pos, negsuc, IsInt64}
use hyperliquid_cpp.Core.Decimal.RoundTrip.{written}
use hyperliquid_cpp.Core.Decimal.{
  Decimal, put_int, put_frac, trim_zeros, put_fraction, to_chars, to_chars_magnitude, scale,
  from_raw,
}

length-put_int :
    (k fuel n : ℕ) (buf out : List ℕ)
    → n < 10 ^ suc k
    → put_int fuel n buf ≡ some out
    → length out ≤ length buf + suc k
unfolding put_int
length-put_int k zero n buf out h e = ground arith
length-put_int zero (suc fuel) n buf out h e = ground arith
length-put_int (suc k) (suc fuel) n buf out h e =
    ground (arith, pow-suc 10 (suc k), length-put_int k fuel (n / 10) ((b'0' + n % 10) ∷ buf) out)

length-put_frac : (w f : ℕ) (buf : List ℕ) → length (put_frac w f buf) ≡ length buf + w
unfolding put_frac
length-put_frac zero f buf = omega arith
length-put_frac (suc w) f buf = omega (arith, length-put_frac w (f / 10) ((b'0' + f % 10) ∷ buf))

trim_zeros-le : (fuel w f : ℕ) → (trim_zeros fuel w f).0 ≤ w
unfolding trim_zeros
trim_zeros-le zero w f = omega arith
trim_zeros-le (suc fuel) w f = ground (arith, trim_zeros-le fuel (w - 1) (f / 10))

length-put_fraction : (f : ℕ) → length (put_fraction f) ≤ 9
unfolding put_fraction
length-put_fraction f =
    ground
      (arith, trim_zeros-le 8 8 f, length-put_frac (trim_zeros 8 8 f).0 (trim_zeros 8 8 f).1 [])

length_magnitude :
    (n : ℕ) (out : List ℕ)
    → n ≤ 9223372036854775808
    → put_int 24 (n / scale) (put_fraction (n % scale)) ≡ some out
    → length out ≤ 20
length_magnitude n out h e = omega (
  arith,
  length-put_fraction (n % scale),
  length-put_int 10 24 (n / scale) (put_fraction (n % scale)) out (omega arith) e,
)

-- Every int64_t mantissa is printed: the digit loop ends, and what `toChars` writes has at most 21
-- characters, so that it fits the buffer of 24.
pub length-to_chars :
    (d : Decimal) → IsInt64 d.raw → (out : List ℕ) × (to_chars d ≡ some out) × (length out ≤ 21)
unfolding to_chars to_chars_magnitude
length-to_chars d h = by_sign d.raw h
  where
    by_sign :
        (r : ℤ)
        → IsInt64 r
        → (out : List ℕ) × (to_chars (from_raw r) ≡ some out) × (length out ≤ 21)
    by_sign (pos n) h =
        let (out, e, first) = written n (omega arith) in
        (out, rw (e, to_chars), omega (arith, length_magnitude n out (omega arith) e))
    by_sign (negsuc n) h =
        let (out, e, first) = written (n + 1) (omega arith) in
        (b'-' ∷ out, rw (e, to_chars), omega (arith, length_magnitude (n + 1) out (omega arith) e))

-- ===== src/Core/Decimal.antt =====
-- include/hl/core/Decimal.h and src/core/Decimal.cpp: the fixed-point decimal, its parser, its
-- printer, saturating products and quotients, and rounding to a quantum.
-- A text is the list of its bytes. A mantissa is the integer that the int64_t holds; the unsigned
-- accumulator of the parser keeps its wrap-around.
pub mod Parse
pub mod RoundTrip
pub mod Rounding
pub mod Saturation
pub mod Length
mod Runs
use hyperliquid_cpp.Base.{
  ℕ, zero, suc, ◌+◌, ◌-◌, ◌*◌, ◌/◌, ◌%◌, ◌^◌, Bool, true, false, ◌&&◌, ◌||◌, not, Option, none,
  some, List, [], ◌∷◌, ◌++◌, ltb, leb, ◌==◌, if◌then◌else◌, length,
}
use hyperliquid_cpp.Base.Int.{
  ℤ, pos, negsuc, magnitude, is_neg, pos_part, neg_part, lt_ℤ, le_ℤ, eq_ℤ, ◌+ℤ◌, ◌-ℤ◌, ◌*ℤ◌, neg_ℤ,
  tdiv, tmod, signed, int64_max, int64_min_value,
}

pub record Decimal : Type 0 where
  pub raw : ℤ

abbrev pub from_raw : ℤ → Decimal
from_raw r = record { raw = r }

abbrev pub decimals : ℕ
decimals = 8

abbrev pub scale : ℕ
scale = 100000000

abbrev pub max_chars : ℕ
max_chars = 24

abbrev pub u64 : ℕ
u64 = 18446744073709551616

abbrev pub is_digit : ℕ → Bool
is_digit c = leb b'0' c && leb c b'9'

-- The text that is left when a loop stops, the mantissa so far and the flag `anyDigit`.
pub record Scan : Type 0 where
  pub mantissa : ℕ
  pub any_digit : Bool
  pub rest : List ℕ

-- `mantissa * 10 + digit`, refused where it would pass `kMaxRaw`.
pub push_digit : ℕ → ℕ → Option ℕ
push_digit mantissa digit =
    if ltb ((int64_max - digit) / 10) mantissa then none else some ((mantissa * 10 + digit) % u64)

-- The loop over the integer part.
pub int_loop : List ℕ → ℕ → Bool → Option Scan
unfolding push_digit
int_loop [] mantissa any_digit =
    some (record { mantissa = mantissa; any_digit = any_digit; rest = [] })
int_loop (c ∷ cs) mantissa any_digit = elim (is_digit c) [
  | true ↦ elim (push_digit mantissa (c - b'0')) [ none ↦ none | some m ↦ int_loop cs m true ]
  | false ↦ some (record { mantissa = mantissa; any_digit = any_digit; rest = c ∷ cs })
]

-- The loop over the fraction: digits past the eighth are read and dropped. The number is
-- `fracDigits`.
pub frac_loop : List ℕ → ℕ → ℕ → Bool → Option (ℕ × Scan)
unfolding push_digit
frac_loop [] mantissa frac_digits any_digit =
    some (frac_digits, record { mantissa = mantissa; any_digit = any_digit; rest = [] })
frac_loop (c ∷ cs) mantissa frac_digits any_digit = elim (is_digit c) [
  | true ↦ elim (ltb frac_digits decimals) [
    | true ↦ elim (push_digit mantissa (c - b'0')) [
      | none ↦ none
      | some m ↦ frac_loop cs m (frac_digits + 1) true
    ]
    | false ↦ frac_loop cs mantissa frac_digits true
  ]
  | false ↦ some (frac_digits, record { mantissa = mantissa; any_digit = any_digit; rest = c ∷ cs })
]

-- The loop that scales up to eight fractional digits, by the rounds that are left.
pub pad : ℕ → ℕ → Option ℕ
pad zero mantissa = some mantissa
pad (suc rounds) mantissa =
    if ltb (int64_max / 10) mantissa then none else pad rounds (mantissa * 10 % u64)

pub parse_fraction : Scan → Option (ℕ × Scan)
parse_fraction s = elim s.rest [
  | [] ↦ some (0, s)
  | c ∷ cs ↦ if c == b'.' then frac_loop cs s.mantissa 0 s.any_digit else some (0, s)
]

is_empty : List ℕ → Bool
is_empty [] = true
is_empty (c ∷ cs) = false

-- The checks after the loops, and the result.
pub finish : Bool → ℕ × Scan → Option Decimal
unfolding is_empty
finish negative (frac_digits, s) =
    if not (is_empty s.rest) || not s.any_digit
    then none
    else elim (pad (decimals - frac_digits) s.mantissa) [
      | none ↦ none
      | some m ↦ some (from_raw (if negative then neg_ℤ (pos m) else pos m))
    ]

-- `parse` behind the sign.
pub parse_unsigned : Bool → List ℕ → Option Decimal
parse_unsigned negative text = elim (int_loop text 0 false) [
  | none ↦ none
  | some s ↦ elim (parse_fraction s) [ none ↦ none | some r ↦ finish negative r ]
]

-- `none` is the result false, where the output stays as it was.
pub parse : List ℕ → Option Decimal
parse [] = none
parse (c ∷ cs) =
    if c == b'-' || c == b'+' then parse_unsigned (c == b'-') cs else parse_unsigned false (c ∷ cs)

pub parse_or_zero : List ℕ → Decimal
parse_or_zero text = elim (parse text) [ none ↦ from_raw (pos 0) | some d ↦ d ]

-- `toChars` writes from the end of its buffer to the front: `buf` is what is written so far.
-- `while (fracPart % 10 == 0)`, on fuel; `decimals` rounds are enough for a fraction below `scale`.
pub trim_zeros : ℕ → ℕ → ℕ → ℕ × ℕ
trim_zeros zero width frac = (width, frac)
trim_zeros (suc fuel) width frac =
    if frac % 10 == 0 then trim_zeros fuel (width - 1) (frac / 10) else (width, frac)

pub put_frac : ℕ → ℕ → List ℕ → List ℕ
put_frac zero frac buf = buf
put_frac (suc width) frac buf = put_frac width (frac / 10) ((b'0' + frac % 10) ∷ buf)

-- `do … while (intPart != 0)`, on fuel; `none` means that it ran out.
pub put_int : ℕ → ℕ → List ℕ → Option (List ℕ)
put_int zero n buf = none
put_int (suc fuel) n buf =
    let buf' = (b'0' + n % 10) ∷ buf in
    let more = put_int fuel (n / 10) buf' in if n / 10 == 0 then some buf' else more

-- The fractional part with its point, if it is not zero.
pub put_fraction : ℕ → List ℕ
put_fraction frac =
    if frac == 0
    then []
    else let (width, digits) = trim_zeros decimals decimals frac in b'.' ∷ put_frac width digits []

-- The magnitude as the code computes it: `-(raw + 1)` does not overflow at the least int64_t.
pub to_chars_magnitude : ℤ → ℕ
to_chars_magnitude (pos n) = n
to_chars_magnitude (negsuc n) = n + 1

pub to_chars : Decimal → Option (List ℕ)
to_chars d =
    let magnitude = to_chars_magnitude d.raw in
    elim (put_int max_chars (magnitude / scale) (put_fraction (magnitude % scale))) [
      | none ↦ none
      | some buf ↦ some (if is_neg d.raw then b'-' ∷ buf else buf)
    ]

-- `appendTo` and `toString`: the buffer of `toChars` copied behind a text.
pub append_to : List ℕ → Decimal → List ℕ
append_to out d = elim (to_chars d) [ none ↦ out | some buf ↦ out ++ buf ]

pub to_string : Decimal → List ℕ
unfolding append_to
to_string = append_to []

-- `saturate`: a 128-bit intermediate clamped to the range of int64_t.
pub saturate : ℤ → ℤ
saturate v =
    if lt_ℤ (pos int64_max) v
    then pos int64_max
    else if lt_ℤ v int64_min_value
    then int64_min_value
    else v

pub mul : Decimal → Decimal → Decimal
mul a b = from_raw (saturate (tdiv (a.raw *ℤ b.raw) (pos scale)))

pub div : Decimal → Decimal → Decimal
div a b =
    if eq_ℤ b.raw (pos 0)
    then from_raw (pos 0)
    else from_raw (saturate (tdiv (a.raw *ℤ pos scale) b.raw))

abbrev pub is_saturated : Decimal → Bool
is_saturated d = eq_ℤ d.raw (pos int64_max) || eq_ℤ d.raw int64_min_value

pub data RoundingMode : Type 0 where
  down up nearest : RoundingMode

-- The quotient rounded towards negative infinity, as `roundToQuantum` computes it.
pub floor_multiple : ℤ → ℤ → ℤ
floor_multiple raw quantum =
    if not (eq_ℤ (tmod raw quantum) (pos 0)) && is_neg raw
    then tdiv raw quantum -ℤ pos 1
    else tdiv raw quantum

-- The switch on the mode, for a value between the multiples `lo` and `hi`.
pub pick : RoundingMode → ℤ → ℤ → ℤ → ℤ
pick RoundingMode.down raw lo hi = lo
pick RoundingMode.up raw lo hi = hi
pick RoundingMode.nearest raw lo hi =
    let dist_down = raw -ℤ lo in
    let dist_up = hi -ℤ raw in
    if eq_ℤ dist_down dist_up
    then (if le_ℤ (pos 0) raw then hi else lo)
    else if lt_ℤ dist_down dist_up
    then lo
    else hi

pub round_raw : ℤ → ℤ → RoundingMode → ℤ
round_raw raw quantum mode =
    if le_ℤ quantum (pos 1)
    then raw
    else let lo = floor_multiple raw quantum *ℤ quantum in
      if eq_ℤ lo raw then raw else pick mode raw lo (lo +ℤ quantum)

unfoldable pub round_to_quantum : Decimal → ℤ → RoundingMode → Decimal
round_to_quantum value quantum mode = from_raw (round_raw value.raw quantum mode)

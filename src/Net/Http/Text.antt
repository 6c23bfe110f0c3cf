-- ===== src/Net/Http/Text.antt =====
-- src/net/HttpCodec.cpp: the helpers on text, and what the parser uses of the C++ library: `find`,
-- `tolower` in the C locale, and `from_chars`, which reads the longest run of digits at the front and
-- fails on none and on a number out of range.
use hyperliquid_cpp.Base.{
  ℕ, zero, suc, ◌+◌, ◌-◌, ◌*◌, ◌^◌, Bool, true, false, ◌&&◌, ◌||◌, Option, none, some, List, [],
  ◌∷◌, ltb, leb, ◌==◌, if◌then◌else◌, map,
}
use hyperliquid_cpp.Base.Int.{ℤ, pos, negsuc}

unfoldable pub to_lower : ℕ → ℕ
to_lower c = if leb b'A' c && leb c b'Z' then c + 32 else c

-- `name` at the front of the text, by a test on characters.
unfoldable pub starts_by : (ℕ → ℕ → Bool) → List ℕ → List ℕ → Bool
starts_by same text [] = true
starts_by same [] (n ∷ name) = false
starts_by same (c ∷ text) (n ∷ name) = same c n && starts_by same text name

unfoldable pub starts_with : List ℕ → List ℕ → Bool
starts_with = starts_by (λ c n. c == n)

unfoldable pub iequals_prefix : List ℕ → List ℕ → Bool
iequals_prefix = starts_by (λ c n. to_lower c == to_lower n)

unfoldable pub trim_front : List ℕ → List ℕ
trim_front [] = []
trim_front (c ∷ s) = let rest = trim_front s in if (c == b' ') || (c == b'\t') then rest else c ∷ s

-- A character in front of a text whose end is trimmed.
unfoldable pub trim_back_step : ℕ → List ℕ → List ℕ
trim_back_step c [] = if (c == b' ') || (c == b'\t') || (c == b'\r') then [] else c ∷ []
trim_back_step c (d ∷ ds) = c ∷ d ∷ ds

-- The end without blanks and carriage returns.
unfoldable pub trim_back : List ℕ → List ℕ
trim_back [] = []
trim_back (c ∷ s) = trim_back_step c (trim_back s)

unfoldable pub trim : List ℕ → List ℕ
trim s = trim_back (trim_front s)

unfoldable pub shifted : Option ℕ → Option ℕ
shifted none = none
shifted (some i) = some (suc i)

-- `find`: the index of the first occurrence.
unfoldable pub find : List ℕ → List ℕ → Option ℕ
unfolding shifted
find pattern [] = if starts_with [] pattern then some 0 else none
find pattern (c ∷ s) =
    let later = shifted (find pattern s) in if starts_with (c ∷ s) pattern then some 0 else later

unfoldable pub is_found {ℓ} : {A : Type ℓ} → Option A → Bool
is_found none = false
is_found (some a) = true

unfoldable pub contains_token_ci : List ℕ → List ℕ → Bool
contains_token_ci value token = is_found (find token (map to_lower value))

-- The value of a digit in base 10 or 16.
unfoldable pub digit_value : ℕ → ℕ → Option ℕ
digit_value base c =
    if leb b'0' c && leb c b'9'
    then some (c - b'0')
    else if (base == 16) && leb b'a' (to_lower c) && leb (to_lower c) b'f'
    then some (to_lower c - b'a' + 10)
    else none

unfoldable pub read_digits : ℕ → List ℕ → ℕ → Bool → Option ℕ
read_digits base [] acc any = if any then some acc else none
read_digits base (c ∷ s) acc any = elim (digit_value base c) [
  | none ↦ if any then some acc else none
  | some d ↦ read_digits base s (acc * base + d) true
]

unfoldable pub in_range : ℕ → Option ℕ → Option ℕ
in_range limit none = none
in_range limit (some v) = if ltb v limit then some v else none

-- `from_chars` into a uint64_t.
unfoldable pub from_chars_u64 : ℕ → List ℕ → Option ℕ
from_chars_u64 base s = in_range (2 ^ 64) (read_digits base s 0 false)

unfoldable pub negative : Option ℕ → Option ℤ
negative none = none
negative (some zero) = some (pos 0)
negative (some (suc n)) = some (negsuc n)

unfoldable pub positive : Option ℕ → Option ℤ
positive none = none
positive (some n) = some (pos n)

-- `from_chars` into an int, at three characters: they cannot be out of range.
unfoldable pub from_chars_int : List ℕ → Option ℤ
from_chars_int [] = none
from_chars_int (c ∷ s) =
    if c == b'-'
    then negative (read_digits 10 s 0 false)
    else positive (read_digits 10 (c ∷ s) 0 false)

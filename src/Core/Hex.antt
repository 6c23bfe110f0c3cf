-- ===== src/Core/Hex.antt =====
-- include/hl/core/Hex.h, and the hex and name functions of include/hl/core/Types.h with their
-- definitions in src/core/Hex.cpp. Texts are lists of character codes. A digit's value is none
-- where the source says -1, and a text that is refused gives none where the source says false.
pub mod RoundTrip
mod Runs
use hyperliquid_cpp.Base.{
  ℕ, zero, suc, ◌+◌, ◌-◌, ◌*◌, ◌/◌, ◌%◌, ◌^◌, Bool, true, false, ◌&&◌, ◌||◌, not, Option, none,
  some, List, [], ◌∷◌, ◌++◌, ltb, leb, ◌==◌, if◌then◌else◌, length, get_or, codes,
}
use hyperliquid_cpp.Core.Decimal.{u64}

-- `kHexDigits`.
pub hex_digit : ℕ → ℕ
hex_digit n = get_or (codes "0123456789abcdef") n 0

unfoldable pub to_hex : List ℕ → List ℕ
to_hex [] = []
to_hex (b ∷ bs) = hex_digit (b / 16) ∷ hex_digit (b % 16) ∷ to_hex bs

pub hex_nibble : ℕ → Option ℕ
hex_nibble c =
    if leb 48 c && leb c 57
    then some (c - 48)
    else if leb 97 c && leb c 102
    then some (c - 97 + 10)
    else if leb 65 c && leb c 70
    then some (c - 65 + 10)
    else none

pub strip_hex_prefix : List ℕ → List ℕ
strip_hex_prefix [] = []
strip_hex_prefix (a ∷ []) = a ∷ []
strip_hex_prefix (a ∷ b ∷ rest) =
    if (a == 48) && ((b == 120) || (b == 88)) then rest else a ∷ b ∷ rest

-- One byte in front of the bytes that follow it.
pub join_byte : Option ℕ → Option ℕ → Option (List ℕ) → Option (List ℕ)
join_byte (some hi) (some lo) (some bs) = some ((hi * 16 + lo) % 256 ∷ bs)
join_byte (some hi) (some lo) none = none
join_byte (some hi) none bs = none
join_byte none lo bs = none

-- The loop of `fromHex` on a text of an even length.
pub hex_bytes : List ℕ → Option (List ℕ)
hex_bytes [] = some []
hex_bytes (c ∷ []) = none
hex_bytes (c ∷ d ∷ rest) = join_byte (hex_nibble c) (hex_nibble d) (hex_bytes rest)

unfoldable pub from_hex : List ℕ → ℕ → Option (List ℕ)
from_hex hex out_len =
    let s = strip_hex_prefix hex in if not (length s == out_len * 2) then none else hex_bytes s

pub parse_address : List ℕ → Option (List ℕ)
parse_address hex = from_hex hex 20

pub address_to_hex : List ℕ → List ℕ
address_to_hex address = codes "0x" ++ to_hex address

pub record Cloid : Type 0 where
  pub high : ℕ
  pub low : ℕ

-- The loop of `Cloid::parse`, from digit `i` on: the first sixteen digits go to `high`.
pub cloid_step : (ℕ → ℕ → ℕ → Option Cloid) → Option ℕ → ℕ → ℕ → ℕ → Option Cloid
cloid_step next none i hi lo = none
cloid_step next (some n) i hi lo =
    if ltb i 16 then next (i + 1) (hi * 16 % u64 + n) lo else next (i + 1) hi (lo * 16 % u64 + n)

pub cloid_loop : List ℕ → ℕ → ℕ → ℕ → Option Cloid
cloid_loop [] i hi lo = some (record { high = hi; low = lo })
cloid_loop (c ∷ rest) i hi lo = cloid_step (cloid_loop rest) (hex_nibble c) i hi lo

unfoldable pub cloid_parse : List ℕ → Option Cloid
cloid_parse hex =
    let s = strip_hex_prefix hex in if not (length s == 32) then none else cloid_loop s 0 0 0

-- The low `k` hex digits of `v`, the highest first.
pub hex_digits : ℕ → ℕ → List ℕ
hex_digits zero v = []
hex_digits (suc k) v = hex_digit (v / 16 ^ k % 16) ∷ hex_digits k v

unfoldable pub cloid_to_string : Cloid → List ℕ
cloid_to_string c = codes "0x" ++ (hex_digits 16 c.high ++ hex_digits 16 c.low)

pub is_allowed : ℕ → Bool
is_allowed c =
    (leb 65 c && leb c 90)
    || (leb 97 c && leb c 122)
    || (leb 48 c && leb c 57)
    || (c == 47)
    || (c == 64)
    || (c == 45)
    || (c == 95)
    || (c == 46)
    || (c == 58)

pub all_allowed : List ℕ → Bool
all_allowed [] = true
all_allowed (c ∷ cs) = let rest = all_allowed cs in if not (is_allowed c) then false else rest

unfoldable pub is_valid_coin_name : List ℕ → Bool
is_valid_coin_name coin =
    if (length coin == 0) || ltb 64 (length coin) then false else all_allowed coin

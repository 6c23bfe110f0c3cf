-- ===== src/Core/Hex/RoundTrip.antt =====
-- What is printed in hex is read back, and an accepted coin name needs no escape in JSON.
use hyperliquid_cpp.Base.{
  ℕ, zero, suc, ◌+◌, ◌*◌, ◌/◌, ◌%◌, ◌^◌, ◌≤◌, ◌<◌, ◌≡◌, refl, ap, sym, true, false, Option, none,
  some, List, [], ◌∷◌, ◌++◌, length, All, arith, length-append, append-nil, ◌≢◌, ltb, ◌==◌,
}
use native.Mathlib.Nat.{pow-suc, mod-eq_of_lt}
use hyperliquid_cpp.Base.Bytes.{IsByte, split_digit, tabulated, from_table}
use hyperliquid_cpp.Core.Decimal.{u64}
use hyperliquid_cpp.Core.Hex.{
  hex_digit, to_hex, hex_nibble, strip_hex_prefix, join_byte, hex_bytes, from_hex, parse_address,
  address_to_hex, Cloid, cloid_step, cloid_loop, cloid_parse, hex_digits, cloid_to_string,
  is_allowed, all_allowed, is_valid_coin_name,
}

rank : Option ℕ → ℕ
rank none = 0
rank (some n) = suc n

rank-some : (o : Option ℕ) (n : ℕ) → rank o ≡ suc n → o ≡ some n
unfolding rank
rank-some none n e = absurd (omega arith)
rank-some (some m) n e = ap some (omega arith)

-- The value of a printed digit, by evaluation of the sixteen of them.
hex_nibble-hex_digit : (n : ℕ) → n < 16 → hex_nibble (hex_digit n) ≡ some n
unfolding hex_nibble hex_digit rank tabulated
hex_nibble-hex_digit n h =
    rank-some _ n (from_table (λ y. rank (hex_nibble (hex_digit y))) (λ y. suc y) h refl)

hex_bytes-to_hex : (bs : List ℕ) → All IsByte bs → hex_bytes (to_hex bs) ≡ some bs
unfolding hex_bytes to_hex join_byte
hex_bytes-to_hex [] h = refl
hex_bytes-to_hex (b ∷ bs) h =
    let e : (b / 16 * 16 + b % 16) % 256 ≡ b = omega (arith, h.0) in
    rw
      (
        hex_nibble-hex_digit (b / 16) (omega (arith, h.0)),
        hex_nibble-hex_digit (b % 16) (omega arith),
        hex_bytes-to_hex bs h.1,
        e,
      )
      refl

length-to_hex : (bs : List ℕ) → length (to_hex bs) ≡ length bs * 2
unfolding to_hex
length-to_hex [] = refl
length-to_hex (b ∷ bs) = omega (arith, length-to_hex bs)

-- An address of twenty bytes, printed as the venue wants it, parses back to it.
pub parse_address-address_to_hex :
    (address : List ℕ)
    → All IsByte address
    → length address ≡ 20
    → parse_address (address_to_hex address) ≡ some address
unfolding parse_address from_hex address_to_hex strip_hex_prefix
parse_address-address_to_hex address h n =
    let e : (length (to_hex address) == 40) ≡ true = ground (arith, n, length-to_hex address) in
    rw e (hex_bytes-to_hex address h)

length-hex_digits : (k v : ℕ) → length (hex_digits k v) ≡ k
unfolding hex_digits
length-hex_digits zero v = refl
length-hex_digits (suc k) v = ap suc (length-hex_digits k v)

pow16_pos : (k : ℕ) → 0 < 16 ^ k
pow16_pos zero = omega arith
pow16_pos (suc k) = omega (arith, pow-suc 16 k, pow16_pos k)

-- One more digit does not wrap while there is room for all that are left.
room_shrinks :
    (p acc d : ℕ)
    → 0 < p
    → d < 16
    → acc * (p * 16) + p * 16 ≤ 2 ^ 64
    → ((acc * 16 % u64 + d) ≡ acc * 16 + d) × ((acc * 16 + d) * p + p ≤ 2 ^ 64)
room_shrinks p acc d pos small room =
    let whole : (acc * 16 + 16) * p ≤ 2 ^ 64 = grind arith in
    let one : acc * 16 + 16 ≤ (acc * 16 + 16) * p = grind arith in
    let less : (acc * 16 + d) * p + p ≤ (acc * 16 + 16) * p = grind arith in
    (ap (λ (t : ℕ). t + d) (mod-eq_of_lt (omega (arith, whole, one))), omega (arith, whole, less))

joined_digit :
    (k v acc : ℕ)
    → acc * 16 ^ suc k + v % 16 ^ suc k ≡ (acc * 16 + v / 16 ^ k % 16) * 16 ^ k + v % 16 ^ k
joined_digit k v acc = rw (pow-suc 16 k) (grind (arith, split_digit 16 (16 ^ k) v (pow16_pos k)))

high_digits :
    (k v i hi lo : ℕ) (rest : List ℕ)
    → i + k ≤ 16
    → hi * 16 ^ k + 16 ^ k ≤ 2 ^ 64
    → cloid_loop (hex_digits k v ++ rest) i hi lo
      ≡ cloid_loop rest (i + k) (hi * 16 ^ k + v % 16 ^ k) lo
unfolding hex_digits cloid_loop cloid_step
high_digits zero v i hi lo rest le room =
    let a : i + 0 ≡ i = omega arith in
    let b : hi * 16 ^ 0 + v % 16 ^ 0 ≡ hi = omega arith in rw (a, b) refl
high_digits (suc k) v i hi lo rest le room =
    let d = v / 16 ^ k % 16 in
    let small : d < 16 = omega arith in
    let t : ltb i 16 ≡ true = ground arith in
    let fits = room_shrinks (16 ^ k) hi d (pow16_pos k) small (rw (sym (pow-suc 16 k)) room) in
    let i' : i + suc k ≡ i + 1 + k = omega arith in
    rw (hex_nibble-hex_digit d small, t, fits.0, i', joined_digit k v hi)
      (high_digits k v (i + 1) (hi * 16 + d) lo rest (omega (arith, le)) fits.1)

low_digits :
    (k v i hi lo : ℕ) (rest : List ℕ)
    → 16 ≤ i
    → lo * 16 ^ k + 16 ^ k ≤ 2 ^ 64
    → cloid_loop (hex_digits k v ++ rest) i hi lo
      ≡ cloid_loop rest (i + k) hi (lo * 16 ^ k + v % 16 ^ k)
unfolding hex_digits cloid_loop cloid_step
low_digits zero v i hi lo rest le room =
    let a : i + 0 ≡ i = omega arith in
    let b : lo * 16 ^ 0 + v % 16 ^ 0 ≡ lo = omega arith in rw (a, b) refl
low_digits (suc k) v i hi lo rest le room =
    let d = v / 16 ^ k % 16 in
    let small : d < 16 = omega arith in
    let t : ltb i 16 ≡ false = ground arith in
    let fits = room_shrinks (16 ^ k) lo d (pow16_pos k) small (rw (sym (pow-suc 16 k)) room) in
    let i' : i + suc k ≡ i + 1 + k = omega arith in
    rw (hex_nibble-hex_digit d small, t, fits.0, i', joined_digit k v lo)
      (low_digits k v (i + 1) hi (lo * 16 + d) rest (omega (arith, le)) fits.1)

-- A client order id, printed as the venue echoes it, parses back to it.
pub cloid_parse-cloid_to_string :
    (c : Cloid) → c.high < 2 ^ 64 → c.low < 2 ^ 64 → cloid_parse (cloid_to_string c) ≡ some c
unfolding cloid_parse cloid_to_string strip_hex_prefix cloid_loop
cloid_parse-cloid_to_string c h l =
    let high = hex_digits 16 c.high in
    let low = hex_digits 16 c.low in
    let e : (length (high ++ low) == 32) ≡ true =
      ground
        (arith, length-append high low, length-hex_digits 16 c.high, length-hex_digits 16 c.low) in
    let a : 0 * 16 ^ 16 + c.high % 16 ^ 16 ≡ c.high = omega (arith, mod-eq_of_lt h) in
    let b : 0 * 16 ^ 16 + c.low % 16 ^ 16 ≡ c.low = omega (arith, mod-eq_of_lt l) in
    rw
      (
        e,
        sym (append-nil low),
        high_digits 16 c.high 0 0 0 (low ++ []) (omega arith) (omega arith),
        a,
        low_digits 16 c.low (0 + 16) c.high 0 [] (omega arith) (omega arith),
        b,
      )
      refl

-- A printable character that JSON does not escape.
unfoldable pub IsPlain : ℕ → Type 0
IsPlain c = (32 < c × c < 127) × (c ≢ 34 × c ≢ 92)

is_allowed-IsPlain : (c : ℕ) → is_allowed c ≡ true → IsPlain c
unfolding is_allowed IsPlain
is_allowed-IsPlain c h = ((ground arith, ground arith), (λ e. ground arith, λ e. ground arith))

all_allowed-All : (cs : List ℕ) → all_allowed cs ≡ true → All IsPlain cs
unfolding all_allowed
all_allowed-All [] h = tt
all_allowed-All (c ∷ cs) h =
    (is_allowed-IsPlain c (ground arith), all_allowed-All cs (ground arith))

-- An accepted name has 1 to 64 characters, and none of them is a quote, a backslash or a control
-- character, so it stands in a JSON string as it is.
pub is_valid_coin_name-All :
    (coin : List ℕ)
    → is_valid_coin_name coin ≡ true
    → (0 < length coin × length coin ≤ 64) × All IsPlain coin
unfolding is_valid_coin_name
is_valid_coin_name-All coin h = ((ground arith, ground arith), all_allowed-All coin (ground arith))

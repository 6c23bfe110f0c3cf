-- ===== src/Net/Base64/Decoding.antt =====
-- What is encoded in base 64 decodes to the same bytes.
use hyperliquid_cpp.Base.{
  ℕ, ◌+◌, ◌-◌, ◌*◌, ◌/◌, ◌%◌, ◌<◌, ◌≡◌, refl, ◌∙◌, false, ◌&&◌, List, [], ◌∷◌, arith, leb, ◌==◌,
  if◌then◌else◌, All,
}
use hyperliquid_cpp.Base.Bytes.{IsByte, tabulated, from_table}
use hyperliquid_cpp.Net.Base64.{table, sextets, base64_encode}

-- The value of a character of the alphabet in RFC 4648, and 64 for any other.
unfoldable pub sextet : ℕ → ℕ
sextet c =
    if leb 65 c && leb c 90
    then c - 65
    else if leb 97 c && leb c 122
    then c - 71
    else if leb 48 c && leb c 57
    then c + 4
    else if c == 43
    then 62
    else if c == 47
    then 63
    else 64

-- The decoding of RFC 4648: four characters are three bytes, or fewer when the last ones are `=`.
unfoldable pub base64_decode : List ℕ → List ℕ
base64_decode [] = []
base64_decode (p ∷ []) = []
base64_decode (p ∷ q ∷ []) = []
base64_decode (p ∷ q ∷ r ∷ []) = []
base64_decode (p ∷ q ∷ r ∷ s ∷ rest) =
    let more = base64_decode rest in
    let first = sextet p * 4 + sextet q / 16 in
    let second = sextet q % 16 * 16 + sextet r / 4 in
    let third = sextet r % 4 * 64 + sextet s in
    if r == 61
    then first ∷ []
    else if s == 61
    then first ∷ second ∷ []
    else first ∷ second ∷ third ∷ more

sextet-table : (n : ℕ) → n < 64 → sextet (table n) ≡ n
unfolding sextet table tabulated
sextet-table n h = from_table (λ y. sextet (table y)) (λ y. y) h refl

mark : ℕ → ℕ
mark n = if table n == 61 then 1 else 0

table-padding : (n : ℕ) → n < 64 → (table n == 61) ≡ false
unfolding mark table tabulated
table-padding n h = let e : mark n ≡ 0 = from_table mark (λ y. 0) h refl in ground (arith, e)

decode_pair :
    (i j : ℕ)
    → i < 64
    → j < 64
    → base64_decode (table i ∷ table j ∷ b'=' ∷ b'=' ∷ []) ≡ (i * 4 + j / 16) ∷ []
unfolding base64_decode
decode_pair i j a b = rw (sextet-table i a, sextet-table j b) refl

decode_triple :
    (i j k : ℕ)
    → i < 64
    → j < 64
    → k < 64
    → base64_decode (table i ∷ table j ∷ table k ∷ b'=' ∷ [])
      ≡ (i * 4 + j / 16) ∷ (j % 16 * 16 + k / 4) ∷ []
unfolding base64_decode
decode_triple i j k a b c =
    rw (table-padding k c, sextet-table i a, sextet-table j b, sextet-table k c) refl

decode_quad :
    (i j k l : ℕ) (rest : List ℕ)
    → i < 64
    → j < 64
    → k < 64
    → l < 64
    → base64_decode (table i ∷ table j ∷ table k ∷ table l ∷ rest)
      ≡ (i * 4 + j / 16) ∷ (j % 16 * 16 + k / 4) ∷ (k % 4 * 64 + l) ∷ base64_decode rest
unfolding base64_decode
decode_quad i j k l rest a b c d =
    rw
      (
        table-padding k c,
        table-padding l d,
        sextet-table i a,
        sextet-table j b,
        sextet-table k c,
        sextet-table l d,
      )
      refl

-- The three bytes from the four parts of their 24 bits.
first_byte :
    (a b c : ℕ)
    → a < 256
    → b < 256
    → c < 256
    → (a * 65536 + b * 256 + c) / 262144 % 64 * 4 + (a * 65536 + b * 256 + c) / 4096 % 64 / 16 ≡ a
first_byte a b c x y z = omega arith

second_byte :
    (a b c : ℕ)
    → a < 256
    → b < 256
    → c < 256
    → (a * 65536 + b * 256 + c) / 4096 % 64 % 16 * 16 + (a * 65536 + b * 256 + c) / 64 % 64 / 4 ≡ b
second_byte a b c x y z = omega arith

third_byte :
    (a b c : ℕ)
    → c < 256
    → (a * 65536 + b * 256 + c) / 64 % 64 % 4 * 64 + (a * 65536 + b * 256 + c) % 64 ≡ c
third_byte a b c z = omega arith

-- The characters that `base64Encode` gives for any bytes decode, by the standard's rules, to these
-- bytes.
pub base64_decode-base64_encode :
    (bytes : List ℕ) → All IsByte bytes → base64_decode (base64_encode bytes) ≡ bytes
unfolding base64_encode sextets
base64_decode-base64_encode [] h = unfold base64_decode in refl
base64_decode-base64_encode (a ∷ []) h =
    let e : a * 65536 / 262144 % 64 * 4 + a * 65536 / 4096 % 64 / 16 ≡ a = omega (arith, h.0) in
    decode_pair (a * 65536 / 262144 % 64) (a * 65536 / 4096 % 64) (omega arith) (omega arith)
    ∙ rw e refl
base64_decode-base64_encode (a ∷ b ∷ []) h =
    let v = a * 65536 + b * 256 in
    let e : v / 262144 % 64 * 4 + v / 4096 % 64 / 16 ≡ a = omega (arith, h.0, h.1.0) in
    let f : v / 4096 % 64 % 16 * 16 + v / 64 % 64 / 4 ≡ b = omega (arith, h.0, h.1.0) in
    decode_triple (v / 262144 % 64) (v / 4096 % 64) (v / 64 % 64) (omega arith) (omega arith)
      (omega arith)
    ∙ rw (e, f) refl
base64_decode-base64_encode (a ∷ b ∷ c ∷ rest) h =
    let v = a * 65536 + b * 256 + c in
    decode_quad (v / 262144 % 64) (v / 4096 % 64) (v / 64 % 64) (v % 64) (base64_encode rest)
      (omega arith) (omega arith) (omega arith) (omega arith)
    ∙ rw
        (
          first_byte a b c h.0 h.1.0 h.1.1.0,
          second_byte a b c h.0 h.1.0 h.1.1.0,
          third_byte a b c h.1.1.0,
          base64_decode-base64_encode rest h.1.1.1,
        )
        refl

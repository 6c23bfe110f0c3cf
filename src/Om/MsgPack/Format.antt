-- ===== src/Om/MsgPack/Format.antt =====
-- The MessagePack format, as a decoder of one item: what the bytes of the writer mean.
use hyperliquid_cpp.Base.{
  ℕ, suc, ◌-◌, ◌^◌, Bool, true, false, Option, none, some, List, [], ◌∷◌, ltb, leb, ◌==◌,
  if◌then◌else◌, length, take, drop,
}
use hyperliquid_cpp.Base.Int.{ℤ, pos, negsuc}
use hyperliquid_cpp.Base.Bytes.{read_be}

pub data Item : Type 0 where
  map_of array_of : ℕ → Item
  text : List ℕ → Item
  boolean : Bool → Item
  nil : Item
  integer : ℤ → Item

-- The integer of a pattern of `w` bits.
unfoldable pub signed_bits : ℕ → ℕ → ℤ
signed_bits w v = if ltb v (2 ^ (w - 1)) then pos v else negsuc (2 ^ w - suc v)

unfoldable pub read_text : Option (ℕ × List ℕ) → Option (Item × List ℕ)
read_text none = none
read_text (some (n, bs)) =
    if leb n (length bs) then some (Item.text (take n bs), drop n bs) else none

read_number : (ℕ → Item) → Option (ℕ × List ℕ) → Option (Item × List ℕ)
read_number f none = none
read_number f (some (n, bs)) = some (f n, bs)

-- A first byte with a number of following bytes that it announces.
decode_tagged : ℕ → List ℕ → Option (Item × List ℕ)
unfolding read_number
decode_tagged b bs =
    if b == 0xc0
    then some (Item.nil, bs)
    else if b == 0xc2
    then some (Item.boolean false, bs)
    else if b == 0xc3
    then some (Item.boolean true, bs)
    else if b == 0xcc
    then read_number (λ v. Item.integer (pos v)) (read_be 1 bs 0)
    else if b == 0xcd
    then read_number (λ v. Item.integer (pos v)) (read_be 2 bs 0)
    else if b == 0xce
    then read_number (λ v. Item.integer (pos v)) (read_be 4 bs 0)
    else if b == 0xcf
    then read_number (λ v. Item.integer (pos v)) (read_be 8 bs 0)
    else if b == 0xd0
    then read_number (λ v. Item.integer (signed_bits 8 v)) (read_be 1 bs 0)
    else if b == 0xd1
    then read_number (λ v. Item.integer (signed_bits 16 v)) (read_be 2 bs 0)
    else if b == 0xd2
    then read_number (λ v. Item.integer (signed_bits 32 v)) (read_be 4 bs 0)
    else if b == 0xd3
    then read_number (λ v. Item.integer (signed_bits 64 v)) (read_be 8 bs 0)
    else if b == 0xd9
    then read_text (read_be 1 bs 0)
    else if b == 0xda
    then read_text (read_be 2 bs 0)
    else if b == 0xdb
    then read_text (read_be 4 bs 0)
    else if b == 0xdc
    then read_number Item.array_of (read_be 2 bs 0)
    else if b == 0xdd
    then read_number Item.array_of (read_be 4 bs 0)
    else if b == 0xde
    then read_number Item.map_of (read_be 2 bs 0)
    else if b == 0xdf
    then read_number Item.map_of (read_be 4 bs 0)
    else none

-- The first item of the bytes, and what follows it.
unfoldable pub decode : List ℕ → Option (Item × List ℕ)
unfolding decode_tagged
decode [] = none
decode (b ∷ bs) =
    if ltb b 0x80
    then some (Item.integer (pos b), bs)
    else if ltb b 0x90
    then some (Item.map_of (b - 0x80), bs)
    else if ltb b 0xa0
    then some (Item.array_of (b - 0x90), bs)
    else if ltb b 0xc0
    then read_text (some (b - 0xa0, bs))
    else if ltb b 0xe0
    then decode_tagged b bs
    else some (Item.integer (negsuc (0xff - b)), bs)

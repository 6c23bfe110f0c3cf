-- ===== src/Core/Hex/Runs.antt =====
-- Hex texts and coin names on concrete inputs.
use hyperliquid_cpp.Base.{
  ℕ, ◌≤◌, ◌<◌, ◌≡◌, refl, some, List, ◌∷◌, length, All, arith, codes, replicate,
}
use hyperliquid_cpp.Core.Hex.{
  parse_address, address_to_hex, Cloid, cloid_parse, cloid_to_string, is_valid_coin_name,
  is_allowed, all_allowed,
}
use hyperliquid_cpp.Core.Hex.RoundTrip.{
  parse_address-address_to_hex, cloid_parse-cloid_to_string, is_valid_coin_name-All, IsPlain,
}

abbrev address : List ℕ
address = 0xde ∷ replicate 19 0x0a

abbrev cloid : Cloid
cloid = record { high = 0x1234_5678_90ab_cdef; low = 0xffff_ffff_ffff_ffff }

parse_address-address_to_hex_example : parse_address (address_to_hex address) ≡ some address
parse_address-address_to_hex_example = parse_address-address_to_hex address (omega arith) refl

cloid_parse-cloid_to_string_example : cloid_parse (cloid_to_string cloid) ≡ some cloid
cloid_parse-cloid_to_string_example = cloid_parse-cloid_to_string cloid (omega arith) (omega arith)

is_valid_coin_name-All_example :
    (0 < length (codes "PURR/USDC") × length (codes "PURR/USDC") ≤ 64)
    × All IsPlain (codes "PURR/USDC")
unfolding is_valid_coin_name is_allowed all_allowed
is_valid_coin_name-All_example = is_valid_coin_name-All (codes "PURR/USDC") refl

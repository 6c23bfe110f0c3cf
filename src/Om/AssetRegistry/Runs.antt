-- ===== src/Om/AssetRegistry/Runs.antt =====
-- Rounding for one asset on concrete prices and sizes.
use hyperliquid_cpp.Base.{List, ℕ, ◌^◌, ◌≡◌, refl, false, [], ◌⊎◌, arith, codes}
use hyperliquid_cpp.Base.Int.{pos, negsuc, magnitude, ◌≤ℤ◌}
use hyperliquid_cpp.Core.Decimal.{Decimal, from_raw, RoundingMode}
use hyperliquid_cpp.Core.Decimal.Rounding.{RoundsTo, IsMultiple}
use hyperliquid_cpp.Om.AssetRegistry.{AssetInfo, perp, max_price_decimals, round_px, round_sz}
use hyperliquid_cpp.Core.Decimal.Rounding.Ranges.{NoOverflow}
use hyperliquid_cpp.Om.AssetRegistry.Rounding.{round_sz-IsTowardsZero}
use hyperliquid_cpp.Om.AssetRegistry.Rounding.Prices.{round_px-RoundsTo, IsTick}
use hyperliquid_cpp.Om.AssetRegistry.Loading.{find, add}
use hyperliquid_cpp.Om.AssetRegistry.SpotLoading.{load_spot_meta}
use hyperliquid_cpp.Om.AssetRegistry.Lookup.{find-add}
use hyperliquid_cpp.Core.Json.{
  Json, string, object, array, integer, element, no_element, member, no_member,
}
use hyperliquid_cpp.Base.Texts.{same_text}
use hyperliquid_cpp.Base.{some, if◌then◌else◌, ◌∷◌}

abbrev btc : AssetInfo
btc = record {
  name = codes "BTC";
  asset = 0;
  kind = perp;
  sz_decimals = pos 5;
  base_token = [];
  max_leverage = 40;
  only_isolated = false;
  is_delisted = false;
}

-- 75951.37.
abbrev price : Decimal
price = from_raw (pos 7595137000000)

round_px-RoundsTo_example :
    (e : ℕ) × (IsTick (max_price_decimals btc) (magnitude price.raw) e
      × RoundsTo RoundingMode.nearest price.raw
          (10 ^ e)
          (round_px btc price RoundingMode.nearest).raw
      × IsMultiple (round_px btc price RoundingMode.nearest).raw (10 ^ e)
      × NoOverflow price.raw (10 ^ e))
round_px-RoundsTo_example = round_px-RoundsTo btc price RoundingMode.nearest (omega arith) refl

round_sz-IsTowardsZero_example :
    (pos 0 ≤ℤ (round_sz btc (from_raw (negsuc 123456)) RoundingMode.down).raw
      × (round_sz btc (from_raw (negsuc 123456)) RoundingMode.down).raw ≤ℤ negsuc 123456)
    ⊎ (negsuc 123456 ≤ℤ (round_sz btc (from_raw (negsuc 123456)) RoundingMode.down).raw
        × (round_sz btc (from_raw (negsuc 123456)) RoundingMode.down).raw ≤ℤ pos 0)
round_sz-IsTowardsZero_example = round_sz-IsTowardsZero btc (from_raw (negsuc 123456))

find-add_example : find (codes "BTC") (add btc (record btc { asset = 7 } ∷ [])) ≡ (
    if same_text btc.name (codes "BTC")
    then some btc
    else find (codes "BTC") (record btc { asset = 7 } ∷ []))
find-add_example = find-add btc (record btc { asset = 7 } ∷ []) (codes "BTC")

-- A document with two tokens and a pair of them, which is also read as a perpetual.
abbrev one_pair : Json
one_pair = object (
    member (codes "tokens")
      (array (
        element
          (object (
            member (codes "index") (integer (pos 1)) (
              member (codes "szDecimals") (integer (pos 2))
                (member (codes "name") (string (codes "PURR")) no_member))))
          (element (object (member (codes "name") (string (codes "USDC")) no_member)) no_element)))
      (member (codes "universe")
        (array (
          element
            (object (
              member (codes "name") (string (codes "PURR/USDC")) (
                member (codes "tokens")
                  (array (element (integer (pos 1)) (element (integer (pos 0)) no_element)))
                  no_member)))
            no_element))
        no_member))

abbrev with_pair : List AssetInfo
with_pair = (load_spot_meta (λ t. some one_pair) (btc ∷ []) []).0

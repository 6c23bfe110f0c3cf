-- ===== src/Om/AssetRegistry/Loading.antt =====
-- src/om/AssetRegistry.cpp: the list of assets, with the loaders of the two responses.
use hyperliquid_cpp.Base.{
  ℕ, ◌+◌, ◌%◌, ◌^◌, Bool, true, false, not, Option, none, some, List, [], ◌∷◌, ◌++◌, ◌==◌,
  if◌then◌else◌, length, codes,
}
use hyperliquid_cpp.Base.Texts.{same_text}
use hyperliquid_cpp.Core.Errors.{Error, parse_error, Result, success, failure}
use hyperliquid_cpp.Core.Json.{
  Json, field, as_string, as_int, as_bool, as_array, wrap_signed, wrap_unsigned,
}
use hyperliquid_cpp.Om.AssetRegistry.{Kind, perp, spot, AssetInfo}

unfoldable pub find : List ℕ → List AssetInfo → Option AssetInfo
find name [] = none
find name (a ∷ assets) =
    let later = find name assets in if same_text a.name name then some a else later

unfoldable pub find_by_asset : ℕ → List AssetInfo → Option AssetInfo
find_by_asset id [] = none
find_by_asset id (a ∷ assets) =
    let later = find_by_asset id assets in if a.asset == id then some a else later

-- The first asset of the same name is replaced; a new one goes to the end.
unfoldable pub add : AssetInfo → List AssetInfo → List AssetInfo
add info [] = info ∷ []
add info (a ∷ assets) =
    let rest = add info assets in if same_text a.name info.name then info ∷ assets else a ∷ rest

unfoldable pub is_perp : Kind → Bool
is_perp perp = true
is_perp spot = false

-- `std::erase_if` on the assets of a kind: perpetuals, or spot pairs.
unfoldable pub without : Bool → List AssetInfo → List AssetInfo
without perps [] = []
without perps (a ∷ assets) =
    let rest = without perps assets in
    if (if perps then is_perp a.kind else not (is_perp a.kind)) then rest else a ∷ rest

unfoldable pub perp_info : ℕ → Json → AssetInfo
perp_info index item = record {
  name = as_string (field (some item) (codes "name"));
  asset = index;
  kind = perp;
  sz_decimals = wrap_signed 32 (as_int (field (some item) (codes "szDecimals")));
  base_token = [];
  max_leverage = wrap_unsigned 32 (as_int (field (some item) (codes "maxLeverage")));
  only_isolated = as_bool (field (some item) (codes "onlyIsolated"));
  is_delisted = as_bool (field (some item) (codes "isDelisted"));
}

-- The assets and the count, when an asset without a name is left out.
unfoldable pub push_named : AssetInfo → List AssetInfo × ℕ → List AssetInfo × ℕ
push_named info (assets, added) =
    if length info.name == 0 then (assets, added) else (assets ++ (info ∷ []), added + 1)

-- The loop over the universe of perpetuals.
unfoldable pub perp_loop : ℕ → List Json → List AssetInfo × ℕ → List AssetInfo × ℕ
perp_loop index [] state = state
perp_loop index (item ∷ items) state =
    perp_loop ((index + 1) % 2 ^ 32) items (push_named (perp_info index item) state)

unfoldable pub parse_failure : List ℕ → Error
parse_failure message = record { kind = parse_error; http_status = 0; message = message }

unfoldable pub on_perp_universe : List AssetInfo → Option (List Json) → List AssetInfo × Result ℕ
on_perp_universe assets none = (assets, failure (parse_failure (codes "meta: missing universe")))
on_perp_universe assets (some items) =
    let state = perp_loop 0 items (without true assets, 0) in (state.0, success state.1)

unfoldable pub on_perp_meta : List AssetInfo → Option Json → List AssetInfo × Result ℕ
on_perp_meta assets none = (assets, failure (parse_failure (codes "meta: invalid JSON")))
on_perp_meta assets (some root) =
    on_perp_universe assets (as_array (field (some root) (codes "universe")))

-- `parse` is what simdjson makes of a text.
unfoldable pub load_perp_meta :
    (List ℕ → Option Json) → List AssetInfo → List ℕ → List AssetInfo × Result ℕ
load_perp_meta parse assets text = on_perp_meta assets (parse text)

-- ===== src/Om/AssetRegistry/SpotLoading.antt =====
-- src/om/AssetRegistry.cpp: `loadSpotMeta`. A token index that is negative or beyond memory, which the
-- source does not check, has no effect here.
use hyperliquid_cpp.Base.{
  ℕ, ◌+◌, ◌-◌, ◌%◌, ◌^◌, false, Option, none, some, List, [], ◌∷◌, ◌++◌, leb, if◌then◌else◌, length,
  get_or, set, take, replicate, codes,
}
use hyperliquid_cpp.Base.Int.{ℤ, pos}
use hyperliquid_cpp.Core.Errors.{Result, success, failure}
use hyperliquid_cpp.Core.Json.{Json, field, as_string, as_int, as_array, wrap_signed, wrap_unsigned}
use hyperliquid_cpp.Om.AssetRegistry.{spot, AssetInfo}
use hyperliquid_cpp.Om.AssetRegistry.Loading.{without, push_named, parse_failure}

-- A token's size precision and its name; the source keeps the two in two vectors of one length.
abbrev pub no_token : ℤ × List ℕ
no_token = (pos 0, [])

-- `std::vector::resize`.
unfoldable pub resize : List (ℤ × List ℕ) → ℕ → List (ℤ × List ℕ)
resize tokens size = take size tokens ++ replicate (size - length tokens) no_token

unfoldable pub put_token : List (ℤ × List ℕ) → Json → List (ℤ × List ℕ)
put_token tokens token =
    let idx = wrap_unsigned 64 (as_int (field (some token) (codes "index"))) in
    let room = if leb (length tokens) idx then resize tokens ((idx + 1) % 2 ^ 64) else tokens in
    set room idx (
      wrap_signed 32 (as_int (field (some token) (codes "szDecimals"))),
      as_string (field (some token) (codes "name")),
    )

unfoldable pub token_loop : List (ℤ × List ℕ) → List Json → List (ℤ × List ℕ)
token_loop tokens [] = tokens
token_loop tokens (token ∷ rest) = token_loop (put_token tokens token) rest

-- The first token of a pair is its base.
unfoldable pub base_of : List (ℤ × List ℕ) → Option (List Json) → ℤ × List ℕ
base_of tokens none = no_token
base_of tokens (some []) = no_token
base_of tokens (some (t ∷ ts)) = get_or tokens (wrap_unsigned 64 (as_int (some t))) no_token

unfoldable pub spot_info : List (ℤ × List ℕ) → Json → AssetInfo
spot_info tokens pair =
    let base = base_of tokens (as_array (field (some pair) (codes "tokens"))) in
    record {
      name = as_string (field (some pair) (codes "name"));
      asset = (10000 + wrap_unsigned 32 (as_int (field (some pair) (codes "index")))) % 2 ^ 32;
      kind = spot;
      sz_decimals = base.0;
      base_token = base.1;
      max_leverage = 0;
      only_isolated = false;
      is_delisted = false;
    }

unfoldable pub spot_loop : List (ℤ × List ℕ) → List Json → List AssetInfo × ℕ → List AssetInfo × ℕ
spot_loop tokens [] state = state
spot_loop tokens (pair ∷ pairs) state =
    spot_loop tokens pairs (push_named (spot_info tokens pair) state)

unfoldable pub on_spot_universe :
    List AssetInfo → Option (List Json) → Option (List Json) → List AssetInfo × Result ℕ
on_spot_universe assets none universe =
    (assets, failure (parse_failure (codes "spotMeta: missing tokens/universe")))
on_spot_universe assets (some tokens) none =
    (assets, failure (parse_failure (codes "spotMeta: missing tokens/universe")))
on_spot_universe assets (some tokens) (some pairs) =
    let state = spot_loop (token_loop [] tokens) pairs (without false assets, 0) in
    (state.0, success state.1)

unfoldable pub on_spot_meta : List AssetInfo → Option Json → List AssetInfo × Result ℕ
on_spot_meta assets none = (assets, failure (parse_failure (codes "spotMeta: invalid JSON")))
on_spot_meta assets (some root) =
    on_spot_universe assets (as_array (field (some root) (codes "tokens")))
      (as_array (field (some root) (codes "universe")))

unfoldable pub load_spot_meta :
    (List ℕ → Option Json) → List AssetInfo → List ℕ → List AssetInfo × Result ℕ
load_spot_meta parse assets text = on_spot_meta assets (parse text)

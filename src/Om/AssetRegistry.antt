-- ===== src/Om/AssetRegistry.antt =====
-- include/hl/om/AssetRegistry.h and src/om/AssetRegistry.cpp: the rounding rules of one asset. Its
-- children Loading and SpotLoading are the list of assets.
-- A price raw value is an int64_t other than the least one, whose magnitude the source negates.
pub mod Rounding
pub mod Loading
pub mod SpotLoading
mod Lookup
mod Spots
mod Runs
use hyperliquid_cpp.Base.{
  ℕ, zero, suc, ◌+◌, ◌^◌, Bool, true, false, ◌&&◌, List, [], ◌∷◌, leb, if◌then◌else◌,
}
use hyperliquid_cpp.Base.Int.{ℤ, pos, lt_ℤ, eq_ℤ, ◌-ℤ◌, magnitude, is_neg}
use hyperliquid_cpp.Core.Decimal.{Decimal, from_raw, RoundingMode, round_to_quantum}

pub data Kind : Type 0 where
  perp spot : Kind

pub record AssetInfo : Type 0 where
  pub name : List ℕ
  pub asset : ℕ
  pub kind : Kind
  pub sz_decimals : ℤ
  pub base_token : List ℕ
  pub max_leverage : ℕ
  pub only_isolated : Bool
  pub is_delisted : Bool

-- The loop of `digitCount`, by the rounds left.
pub digit_loop : ℕ → ℕ → ℕ → ℕ
digit_loop zero v n = n
digit_loop (suc rounds) v n =
    let rest = digit_loop rounds v (n + 1) in if leb (10 ^ n) v then rest else n

pub digit_count : ℕ → ℕ
digit_count v = digit_loop 18 v 1

-- `std::min` and `std::max` on int.
abbrev pub lesser : ℤ → ℤ → ℤ
lesser a b = if lt_ℤ b a then b else a

abbrev pub greater : ℤ → ℤ → ℤ
greater a b = if lt_ℤ a b then b else a

pub kind_decimals : Kind → ℤ
kind_decimals perp = pos 6
kind_decimals spot = pos 8

pub max_price_decimals : AssetInfo → ℤ
max_price_decimals info = kind_decimals info.kind -ℤ info.sz_decimals

-- The decimals by the count of significant figures and by the asset's limit.
pub decimals_for : ℕ → ℤ → ℤ
decimals_for digits limit =
    let msd_exponent = pos digits -ℤ pos 1 -ℤ pos 8 in
    let by_sig_figs = pos 4 -ℤ msd_exponent in
    let not_negative = if lt_ℤ by_sig_figs (pos 0) then pos 0 else by_sig_figs in
    lesser (lesser not_negative (greater (pos 0) limit)) (pos 8)

-- The index into `kPow10`.
pub px_exponent : AssetInfo → ℕ → ℕ
px_exponent info mag = magnitude (pos 8 -ℤ decimals_for (digit_count mag) (max_price_decimals info))

pub round_px : AssetInfo → Decimal → RoundingMode → Decimal
round_px info px mode =
    if eq_ℤ px.raw (pos 0)
    then px
    else round_to_quantum px (pos (10 ^ px_exponent info (magnitude px.raw))) mode

-- `std::clamp(szDecimals, 0, kDecimals)`, and the index into `kPow10`.
pub sz_exponent : AssetInfo → ℕ
sz_exponent info =
    let clamped =
      if lt_ℤ info.sz_decimals (pos 0) then pos 0 else lesser info.sz_decimals (pos 8) in
    magnitude (pos 8 -ℤ clamped)

abbrev pub negated : Decimal → Decimal
negated d = from_raw (pos 0 -ℤ d.raw)

pub is_down : RoundingMode → Bool
is_down RoundingMode.down = true
is_down RoundingMode.up = false
is_down RoundingMode.nearest = false

pub round_sz : AssetInfo → Decimal → RoundingMode → Decimal
round_sz info sz mode =
    let quantum = pos (10 ^ sz_exponent info) in
    if is_down mode && is_neg sz.raw
    then negated (round_to_quantum (negated sz) quantum RoundingMode.down)
    else round_to_quantum sz quantum mode

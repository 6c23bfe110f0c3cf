-- ===== src/Om/Actions/Wire.antt =====
-- include/hl/om/Actions.h: orders, cancels and modifications in the venue's form. Texts are lists of
-- character codes. `std::to_chars` on an unsigned number gives its decimal digits.
use hyperliquid_cpp.Base.{
  ℕ, zero, suc, ◌+◌, ◌/◌, ◌%◌, Bool, Option, List, [], ◌∷◌, ◌==◌, if◌then◌else◌, codes,
}
use hyperliquid_cpp.Core.Decimal.{Decimal}
use hyperliquid_cpp.Core.Hex.{Cloid}

pub data Tif : Type 0 where
  alo ioc gtc : Tif

unfoldable pub tif_to_string : Tif → List ℕ
tif_to_string alo = codes "Alo"
tif_to_string ioc = codes "Ioc"
tif_to_string gtc = codes "Gtc"

pub data TriggerKind : Type 0 where
  take_profit stop_loss : TriggerKind

pub record TriggerSpec : Type 0 where
  pub trigger_px : Decimal
  pub is_market : Bool
  pub kind : TriggerKind

pub record OrderWire : Type 0 where
  pub asset : ℕ
  pub is_buy : Bool
  pub px : Decimal
  pub sz : Decimal
  pub reduce_only : Bool
  pub tif : Tif
  pub trigger : Option TriggerSpec
  pub cloid : Option Cloid

pub data Grouping : Type 0 where
  na normal_tpsl position_tpsl : Grouping

unfoldable pub grouping_wire : Grouping → List ℕ
grouping_wire na = codes "na"
grouping_wire normal_tpsl = codes "normalTpsl"
grouping_wire position_tpsl = codes "positionTpsl"

-- A named grouping or a priority-fee rate.
pub data OrderGrouping : Type 0 where
  named : Grouping → OrderGrouping
  priority : ℕ → OrderGrouping

pub record BuilderFee : Type 0 where
  pub address : List ℕ
  pub fee_tenths_of_bps : ℕ

pub record CancelWire : Type 0 where
  pub asset : ℕ
  pub oid : ℕ

pub record CancelByCloidWire : Type 0 where
  pub asset : ℕ
  pub cloid : Cloid

-- The exchange's order id or the client's.
pub data Target : Type 0 where
  by_oid : ℕ → Target
  by_cloid : Cloid → Target

pub record ModifyWire : Type 0 where
  pub target : Target
  pub order : OrderWire

pub record EncodedAction : Type 0 where
  pub msgpack : List ℕ
  pub json : List ℕ

-- The digits of `v` in front of `buf`; twenty are enough for 64 bits.
unfoldable pub digits_loop : ℕ → ℕ → List ℕ → List ℕ
digits_loop zero v buf = buf
digits_loop (suc fuel) v buf =
    let buf' = (b'0' + v % 10) ∷ buf in
    let more = digits_loop fuel (v / 10) buf' in if v / 10 == 0 then buf' else more

-- What `appendUint` and `appendBool` append.
unfoldable pub uint_text : ℕ → List ℕ
uint_text v = digits_loop 20 v []

unfoldable pub bool_text : Bool → List ℕ
bool_text b = if b then codes "true" else codes "false"

unfoldable pub tpsl_wire : TriggerKind → List ℕ
tpsl_wire take_profit = codes "tp"
tpsl_wire stop_loss = codes "sl"

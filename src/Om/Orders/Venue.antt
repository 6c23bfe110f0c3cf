-- ===== src/Om/Orders/Venue.antt =====
-- include/hl/WsMessages.h, om/Types.h and om/ExchangeResponse.h: what the venue says of orders.
use hyperliquid_cpp.Base.{ℕ, Bool, Option, List}
use hyperliquid_cpp.Base.Int.{ℤ}
use hyperliquid_cpp.Core.Decimal.{Decimal}
use hyperliquid_cpp.Core.Hex.{Cloid}
use hyperliquid_cpp.Md.OrderBook.{Side}

pub data OrderUpdateStatus : Type 0 where
  opened filled canceled triggered rejected unknown : OrderUpdateStatus

pub record OrderUpdateMsg : Type 0 where
  pub coin : List ℕ
  pub side : Side
  pub limit_px : Decimal
  pub sz : Decimal
  pub orig_sz : Decimal
  pub oid : ℕ
  pub timestamp_ms : ℤ
  pub cloid : Option Cloid
  pub status : OrderUpdateStatus
  pub status_text : List ℕ
  pub status_timestamp_ms : ℤ

-- `FillMsg`, and `Fill`, which `Fill::from` copies from it field by field.
pub record Fill : Type 0 where
  pub coin : List ℕ
  pub side : Side
  pub px : Decimal
  pub sz : Decimal
  pub time_ms : ℤ
  pub oid : ℕ
  pub tid : ℕ
  pub cloid : Option Cloid
  pub crossed : Bool
  pub fee : Decimal
  pub fee_token : List ℕ
  pub closed_pnl : Decimal
  pub start_position : Decimal
  pub dir : List ℕ
  pub hash : List ℕ

pub record UserFillsMsg : Type 0 where
  pub is_snapshot : Bool
  pub user : List ℕ
  pub fills : List Fill

pub record OpenOrder : Type 0 where
  pub coin : List ℕ
  pub side : Side
  pub limit_px : Decimal
  pub sz : Decimal
  pub orig_sz : Decimal
  pub oid : ℕ
  pub timestamp_ms : ℤ
  pub cloid : Option Cloid
  pub reduce_only : Bool
  pub is_trigger : Bool
  pub trigger_px : Decimal
  pub order_type : List ℕ
  pub tif : List ℕ

pub record OrderStatusInfo : Type 0 where
  pub found : Bool
  pub order : OpenOrder
  pub status : OrderUpdateStatus
  pub status_text : List ℕ
  pub status_timestamp_ms : ℤ

pub data ActionStatusKind : Type 0 where
  resting filled waiting_for_fill waiting_for_trigger success error : ActionStatusKind

pub record ActionStatus : Type 0 where
  pub kind : ActionStatusKind
  pub oid : ℕ
  pub cloid : Option Cloid
  pub total_sz : Decimal
  pub avg_px : Decimal
  pub error : List ℕ

pub record ExchangeResponse : Type 0 where
  pub response_type : List ℕ
  pub statuses : List ActionStatus

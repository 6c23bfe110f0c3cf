-- ===== src/Om/Orders.antt =====
-- include/hl/om/ExchangeClient.h, om/Types.h and WsMessages.h: the data of the order management of
-- `ExchangeClient`. A map or a set without an order is a list of its entries, in some order.
-- Decimal sums are those of the integers: the source's int64_t additions do not wrap around.
mod Venue
pub mod Table
pub mod Lifecycle
pub mod Streams
pub mod Reconcile
pub mod Results
pub mod Entry
pub mod Cancels
pub mod Readiness
pub mod Calls
pub mod Steps
mod Consistency
mod Generations
mod Replay
mod Runs
unfoldable pub use Venue.*
use hyperliquid_cpp.Base.{
  ℕ, ◌+◌, ◌%◌, ◌-◌, Bool, true, false, Option, List, ◌==◌, leb, if◌then◌else◌,
}
use hyperliquid_cpp.Base.Int.{ℤ, pos, negsuc, ◌+ℤ◌, ◌-ℤ◌, is_neg, magnitude, int64_max, eq_ℤ}
use hyperliquid_cpp.Core.Decimal.{Decimal, from_raw, u64}
use hyperliquid_cpp.Core.Hex.{Cloid}
use hyperliquid_cpp.Core.Errors.{Error, Result}
use hyperliquid_cpp.Md.OrderBook.{Side}
use hyperliquid_cpp.Om.Actions.Wire.{Tif, TriggerSpec, BuilderFee, EncodedAction}
use hyperliquid_cpp.Om.AssetRegistry.{AssetInfo}

pub data OrderState : Type 0 where
  pending_new opened partially_filled filled canceled rejected : OrderState

abbrev pub is_terminal : OrderState → Bool
is_terminal OrderState.pending_new = false
is_terminal OrderState.opened = false
is_terminal OrderState.partially_filled = false
is_terminal OrderState.filled = true
is_terminal OrderState.canceled = true
is_terminal OrderState.rejected = true

pub record Order : Type 0 where
  pub cloid : Cloid
  pub oid : ℕ
  pub coin : List ℕ
  pub asset : ℕ
  pub side : Side
  pub px : Decimal
  pub orig_sz : Decimal
  pub filled_sz : Decimal
  pub avg_fill_px : Decimal
  pub tif : Tif
  pub reduce_only : Bool
  pub is_trigger : Bool
  pub trigger : Option TriggerSpec
  pub state : OrderState
  pub cancel_pending : Bool
  pub modify_pending : Bool
  pub external : Bool
  pub last_error : List ℕ
  pub created_ms : ℤ
  pub updated_ms : ℤ

-- What the listener was last told.
pub record Emitted : Type 0 where
  pub state : OrderState
  pub oid : ℕ
  pub px : Decimal
  pub orig_sz : Decimal
  pub filled_sz : Decimal
  pub avg_fill_px : Decimal
  pub cancel_pending : Bool
  pub modify_pending : Bool
  pub ever_emitted : Bool
  pub last_error : List ℕ

pub record Tracked : Type 0 where
  pub order : Order
  pub fill_sum : Decimal
  pub fill_notional : ℤ
  pub ack_filled_sz : Decimal
  pub ack_avg_px : Decimal
  pub retired_oids : List ℕ
  pub canceled_during_modify : Bool
  pub not_found_probes : ℕ
  pub emitted : Emitted

pub data ActionKind : Type 0 where
  order cancel modify other : ActionKind

-- Without the deadline timer and the time of sending.
pub record PendingAction : Type 0 where
  pub kind : ActionKind
  pub cloids : List Cloid
  pub modify_targets : List (Decimal × Decimal)
  pub modify_trigger : Option TriggerSpec
  pub via_web_socket : Bool
  pub has_callback : Bool  -- whether somebody waits for the result

pub record PositionState : Type 0 where
  pub size : Decimal
  pub last_fill_ms : ℤ

pub data Probe : Type 0 where
  by_oid : ℕ → Probe
  by_cloid : Cloid → Probe

-- What the client tells its listener, asks `InfoClient`, puts into the event loop and sends.
pub data Output : Type 0 where
  told_order : Order → Output
  told_fill : Fill → Output
  asked_status : Probe → Cloid → Output
  asked_amended : Cloid → Output
  asked_all : List Cloid → Output
  retry_in : ℕ → Cloid → Output
  sent : ℕ → EncodedAction → Output
  told_ready told_disconnected asked_bootstrap asked_adoption asked_positions retry_assets : Output
  told_error : Error → Output
  called_back : ℕ → Result ExchangeResponse → Output

pub record ExchangeConfig : Type 0 where
  pub over_web_socket : Bool
  pub load_spot_assets : Bool
  pub fast_cancels : Bool
  pub builder_fee : Option BuilderFee
  pub adopt_existing_orders : Bool
  pub terminal_order_retention_ms : ℤ

-- The part of the client that the orders depend on. `session_open` is what the session answers to
-- `isOpen`, `accepts` says which actions it takes, `now` is the wall clock, and `outputs` has the
-- newest first. The counters do not wrap around.
pub record Client : Type 0 where
  pub config : ExchangeConfig
  pub assets : List AssetInfo
  pub orders : List (Cloid × Tracked)
  pub oid_index : List (ℕ × Cloid)
  pub positions : List (List ℕ × PositionState)
  pub seen_tids : List ℕ
  pub seen_tid_order : List ℕ
  pub fills_snapshot_seen : Bool
  pub pending : List (ℕ × PendingAction)
  pub next_request_id : ℕ
  pub started : Bool
  pub assets_loaded : Bool
  pub fills : ℕ
  pub reconciles : ℕ
  pub actions_sent : ℕ
  pub actions_via_http : ℕ
  pub action_errors : ℕ
  pub timeouts : ℕ
  pub address_units_used : ℕ
  pub cloid_session : ℕ
  pub cloid_counter : ℕ
  pub ready : Bool
  pub was_ready_before : Bool
  pub positions_loaded : Bool
  pub spot_balances_loaded : Bool
  pub spot_tokens : List (List ℕ × Decimal)
  pub order_updates_acked : Bool
  pub user_fills_acked : Bool
  pub orders_adopted : Bool
  pub adoption_in_flight : Bool
  pub session_open : Bool
  pub accepts : ℕ → Bool
  pub now : ℤ
  pub outputs : List Output

abbrev pub max_remembered_tids : ℕ
max_remembered_tids = 20000

abbrev pub external_cloid_high : ℕ
external_cloid_high = 18446744073709551615

abbrev pub zero_decimal : Decimal
zero_decimal = from_raw (pos 0)

abbrev pub is_zero : Decimal → Bool
is_zero d = eq_ℤ d.raw (pos 0)

abbrev pub plus : Decimal → Decimal → Decimal
plus a b = from_raw (a.raw +ℤ b.raw)

abbrev pub minus : Decimal → Decimal → Decimal
minus a b = from_raw (a.raw -ℤ b.raw)

-- `static_cast<std::int64_t>` of a 128-bit value: the residue modulo 2 ^ 64 in the signed range.
unfoldable pub to_int64 : ℤ → ℤ
to_int64 a =
    let low = magnitude a % u64 in
    let bits = if is_neg a then (u64 - low) % u64 else low in
    if leb bits int64_max then pos bits else negsuc (u64 - 1 - bits)

-- ===== src/Om/Orders/Lifecycle.antt =====
-- src/om/ExchangeClient.cpp: `applyAck` and `applyVenueStatus`, which move one order.
use hyperliquid_cpp.Base.{ℕ, Bool, true, false, ◌&&◌, not, List, codes, if◌then◌else◌}
use hyperliquid_cpp.Base.Int.{lt_ℤ}
use hyperliquid_cpp.Base.Texts.{same_text}
use hyperliquid_cpp.Core.Decimal.{Decimal}
use hyperliquid_cpp.Om.Orders.{
  OrderState, is_terminal, Order, Tracked, OrderUpdateStatus, ActionStatusKind, ActionStatus,
  is_zero,
}
use hyperliquid_cpp.Om.Orders.Table.{Held, recompute_fills, set_oid}

abbrev pub with_state : Tracked → OrderState → Tracked
with_state t state = record t { order = record t.order { state = state } }

abbrev pub is_pending_new : OrderState → Bool
is_pending_new OrderState.pending_new = true
is_pending_new OrderState.opened = false
is_pending_new OrderState.partially_filled = false
is_pending_new OrderState.filled = false
is_pending_new OrderState.canceled = false
is_pending_new OrderState.rejected = false

abbrev pub is_opened : OrderState → Bool
is_opened OrderState.pending_new = false
is_opened OrderState.opened = true
is_opened OrderState.partially_filled = false
is_opened OrderState.filled = false
is_opened OrderState.canceled = false
is_opened OrderState.rejected = false

-- The state of an order that rests.
abbrev pub resting_state : Order → OrderState
resting_state o = if is_zero o.filled_sz then OrderState.opened else OrderState.partially_filled

-- An order without an acknowledgement so far goes to the state, and any other stays.
unfoldable pub from_new : Tracked → OrderState → Tracked
from_new t state = if is_pending_new t.order.state then with_state t state else t

unfoldable pub apply_ack_as : ActionStatusKind → Held → ActionStatus → Held
apply_ack_as ActionStatusKind.resting h st =
    let g = set_oid h st.oid in
    record g { tracked = from_new g.tracked (resting_state g.tracked.order) }
apply_ack_as ActionStatusKind.filled h st =
    let g = set_oid h st.oid in
    let t =
      recompute_fills (record g.tracked { ack_filled_sz = st.total_sz; ack_avg_px = st.avg_px }) in
    record g { tracked = with_state t OrderState.filled }
apply_ack_as ActionStatusKind.waiting_for_fill h st = record h {
  tracked = from_new h.tracked OrderState.opened;
}
apply_ack_as ActionStatusKind.waiting_for_trigger h st = record h {
  tracked = from_new h.tracked OrderState.opened;
}
apply_ack_as ActionStatusKind.success h st = record h {
  tracked = from_new h.tracked OrderState.opened;
}
apply_ack_as ActionStatusKind.error h st =
    let t = record h.tracked { order = record h.tracked.order { last_error = st.error } } in
    record h { tracked = from_new t OrderState.rejected }

unfoldable pub apply_ack : Held → ActionStatus → Held
apply_ack h st = apply_ack_as st.kind h st

-- The cases `Open` and `Triggered`.
unfoldable pub apply_resting : Tracked → Decimal → Decimal → Tracked
apply_resting t limit_px orig_sz =
    let o = t.order in
    let px = if is_zero limit_px then o.px else limit_px in
    let size = if is_zero orig_sz then o.orig_sz else orig_sz in
    let state =
      if is_pending_new o.state
      then resting_state o
      else if is_opened o.state
      then resting_state o
      else o.state in
    record t { order = record o { px = px; orig_sz = size; state = state } }

unfoldable pub apply_filled : Tracked → Tracked
apply_filled t =
    let size =
      if lt_ℤ t.ack_filled_sz.raw t.order.orig_sz.raw then t.order.orig_sz else t.ack_filled_sz in
    let u = recompute_fills (record t { ack_filled_sz = size }) in
    record u { order = record u.order { state = OrderState.filled; cancel_pending = false } }

unfoldable pub apply_canceled : Tracked → List ℕ → Tracked
apply_canceled t status_text =
    let error =
      if same_text status_text (codes "canceled") then t.order.last_error else status_text in
    record t {
      order = record t.order {
        state = OrderState.canceled;
        cancel_pending = false;
        last_error = error;
      };
    }

-- The switch of `applyVenueStatus`.
unfoldable pub switch_status : OrderUpdateStatus → Tracked → List ℕ → Decimal → Decimal → Tracked
switch_status OrderUpdateStatus.opened t status_text limit_px orig_sz =
    apply_resting t limit_px orig_sz
switch_status OrderUpdateStatus.triggered t status_text limit_px orig_sz =
    apply_resting t limit_px orig_sz
switch_status OrderUpdateStatus.filled t status_text limit_px orig_sz = apply_filled t
switch_status OrderUpdateStatus.canceled t status_text limit_px orig_sz =
    apply_canceled t status_text
switch_status OrderUpdateStatus.rejected t status_text limit_px orig_sz = record t {
  order = record t.order { state = OrderState.rejected; last_error = status_text };
}
switch_status OrderUpdateStatus.unknown t status_text limit_px orig_sz = record t {
  order = record t.order { last_error = status_text };
}

abbrev pub is_filled_status : OrderUpdateStatus → Bool
is_filled_status OrderUpdateStatus.opened = false
is_filled_status OrderUpdateStatus.filled = true
is_filled_status OrderUpdateStatus.canceled = false
is_filled_status OrderUpdateStatus.triggered = false
is_filled_status OrderUpdateStatus.rejected = false
is_filled_status OrderUpdateStatus.unknown = false

unfoldable pub apply_venue_status :
    Tracked → OrderUpdateStatus → List ℕ → Decimal → Decimal → Tracked
apply_venue_status t status status_text limit_px orig_sz =
    if is_terminal t.order.state && not (is_filled_status status)
    then record t { order = record t.order { cancel_pending = false } }
    else switch_status status t status_text limit_px orig_sz

-- ===== src/Om/Orders/Results.antt =====
-- src/om/ExchangeClient.cpp: `send`, `completeAction` and `applyActionResult`. The frame that
-- carries an action, its deadline timer and the latency figures are left out.
use hyperliquid_cpp.Base.{
  ℕ, ◌+◌, Bool, true, false, ◌&&◌, ◌||◌, not, Option, none, some, List, [], ◌∷◌, ◌==◌,
  if◌then◌else◌, length, get_elem?, codes,
}
use hyperliquid_cpp.Base.Assoc.{lookup, insert, erase_key}
use hyperliquid_cpp.Core.Decimal.{Decimal}
use hyperliquid_cpp.Core.Hex.{Cloid}
use hyperliquid_cpp.Core.Errors.{ErrorKind, Error, Result, success, failure}
use hyperliquid_cpp.Om.Actions.Wire.{TriggerSpec, EncodedAction}
use hyperliquid_cpp.Om.Orders.{
  OrderState, is_terminal, Order, Tracked, ActionStatusKind, ActionStatus, ActionKind,
  PendingAction, ExchangeResponse, sent, called_back, Client,
}
use hyperliquid_cpp.Om.Orders.Table.{same_oid, find, Held, hold, retire_oid, set_oid, say, emit}
use hyperliquid_cpp.Om.Orders.Lifecycle.{with_state, from_new, apply_ack}
use hyperliquid_cpp.Om.Orders.Reconcile.{reconcile, reconcile_amended}

unfoldable pub is_transport_failure : Error → Bool
is_transport_failure e = elim e.kind [
  | ErrorKind.transport ↦ true
  | ErrorKind.timeout ↦ true
  | _ ↦ false
]

abbrev pub with_error : Tracked → List ℕ → Tracked
with_error t message = record t { order = record t.order { last_error = message } }

abbrev pub no_cancel : Tracked → Tracked
no_cancel t = record t { order = record t.order { cancel_pending = false } }

abbrev pub no_modify : Tracked → Tracked
no_modify t = record t { order = record t.order { modify_pending = false } }

-- The switch where the whole action has failed.
unfoldable pub on_failure : Client → Cloid → ActionKind → Error → Tracked → Client
on_failure s cloid ActionKind.order e t =
    if is_transport_failure e
    then emit (reconcile s cloid) cloid (hold s t)
    else emit s cloid (hold s (from_new t OrderState.rejected))
on_failure s cloid ActionKind.cancel e t =
    if is_transport_failure e
    then emit (reconcile s cloid) cloid (hold s (no_cancel t))
    else emit s cloid (hold s (no_cancel t))
on_failure s cloid ActionKind.modify e t =
    if is_transport_failure e || t.canceled_during_modify
    then emit (reconcile_amended s cloid) cloid (hold s (no_modify t))
    else emit s cloid (hold s (no_modify t))
on_failure s cloid ActionKind.other e t = emit s cloid (hold s t)

-- One error for the whole batch, at an entry behind the statuses.
unfoldable pub on_batch_error : ActionKind → Tracked → Tracked
on_batch_error ActionKind.order t = from_new t OrderState.rejected
on_batch_error ActionKind.cancel t = no_cancel t
on_batch_error ActionKind.modify t = no_modify t
on_batch_error ActionKind.other t = t

unfoldable pub is_error : ActionStatusKind → Bool
is_error ActionStatusKind.error = true
is_error _ = false

unfoldable pub is_success : ActionStatusKind → Bool
is_success ActionStatusKind.success = true
is_success _ = false

-- No status for the entry: the list is short.
unfoldable pub on_short_list : Client → Cloid → ActionKind → List ActionStatus → Tracked → Client
on_short_list s cloid kind (st ∷ []) t =
    if is_error st.kind
    then emit s cloid (hold s (on_batch_error kind (with_error t st.error)))
    else reconcile s cloid
on_short_list s cloid kind [] t = reconcile s cloid
on_short_list s cloid kind (st ∷ more ∷ rest) t = reconcile s cloid

-- The amendment went through: its targets, its trigger, and the oid of the replacement.
unfoldable pub with_targets : Tracked → Option (Decimal × Decimal) → Option TriggerSpec → Tracked
with_targets t target trigger =
    let o = t.order in
    let o1 : Order = elim target [
      | none ↦ o
      | some (px, size) ↦ record o { px = px; orig_sz = size }
    ] in
    let o2 : Order = elim trigger [
      | none ↦ o1
      | some spec ↦ record o1 { trigger = some spec; is_trigger = true }
    ] in
    record t { order = o2 }

unfoldable pub replaced : Held → ℕ → Held
replaced h oid =
    let t = h.tracked in
    if not (oid == 0) && not (oid == t.order.oid)
    then set_oid (record h { tracked = if t.order.oid == 0 then t else retire_oid t t.order.oid })
        oid
    else h

unfoldable pub on_amended :
    Held → ActionStatus → Option (Decimal × Decimal) → Option TriggerSpec → Held
on_amended h st target trigger =
    let g =
      replaced (record h { tracked = with_targets (no_modify h.tracked) target trigger }) st.oid in
    let a =
      apply_ack (record g { tracked = record g.tracked { canceled_during_modify = false } }) st in
    record a { tracked = with_error a.tracked [] }

-- The switch on an entry that has a status. `i` is its place.
unfoldable pub on_entry :
    Client → Cloid → PendingAction → ℕ → ActionStatus → ActionKind → Tracked → Client
on_entry s cloid p i st ActionKind.order t = emit s cloid (apply_ack (hold s t) st)
on_entry s cloid p i st ActionKind.cancel t =
    let u = no_cancel t in
    if is_success st.kind
    then emit s cloid
        (hold s (if is_terminal u.order.state then u else with_state u OrderState.canceled))
    else emit (reconcile s cloid) cloid (hold s (with_error u st.error))
on_entry s cloid p i st ActionKind.modify t =
    if is_error st.kind
    then emit (reconcile_amended s cloid) cloid (hold s (with_error (no_modify t) st.error))
    else emit s cloid (on_amended (hold s t) st (get_elem? p.modify_targets i) p.modify_trigger)
on_entry s cloid p i st ActionKind.other t = emit s cloid (hold s t)

unfoldable pub on_statuses :
    Client → Cloid → PendingAction → ℕ → List ActionStatus → Tracked → Client
on_statuses s cloid p i statuses t =
    if length statuses == 0 then s else elim (get_elem? statuses i) [
      | none ↦ on_short_list s cloid p.kind statuses t
      | some st ↦ on_entry s cloid p i st p.kind t
    ]

-- The loop's body and the loop.
unfoldable pub apply_result_to :
    Client → PendingAction → Result ExchangeResponse → ℕ → Cloid → Client
apply_result_to s p result i cloid = elim (find s.orders cloid) [
  | none ↦ s
  | some t ↦ elim result [
    | failure e ↦ on_failure s cloid p.kind e (with_error t e.message)
    | success response ↦ on_statuses s cloid p i response.statuses t
  ]
]

unfoldable pub apply_action_result :
    Client → PendingAction → Result ExchangeResponse → ℕ → List Cloid → Client
apply_action_result s p result i [] = s
apply_action_result s p result i (cloid ∷ cloids) =
    apply_action_result (apply_result_to s p result i cloid) p result (i + 1) cloids

abbrev pub is_timeout : ErrorKind → Bool
is_timeout ErrorKind.timeout = true
is_timeout _ = false

unfoldable pub count_failure : Client → Result ExchangeResponse → Client
count_failure s (success response) = s
count_failure s (failure e) = record s {
  action_errors = s.action_errors + 1;
  timeouts = if is_timeout e.kind then s.timeouts + 1 else s.timeouts;
}

unfoldable pub complete_action : Client → ℕ → Result ExchangeResponse → Client
complete_action s id result = elim (lookup same_oid s.pending id) [
  | none ↦ s
  | some p ↦
      let taken = record s { pending = erase_key same_oid s.pending id } in
      let applied = apply_action_result (count_failure taken result) p result 0 p.cloids in
      if p.has_callback then say applied (called_back id result) else applied
]

-- A venue counts one unit for an entry of a batch, and one for any other action.
unfoldable pub action_units : PendingAction → ℕ
action_units p = if length p.cloids == 0 then 1 else length p.cloids

abbrev pub send_failed : Result ExchangeResponse
send_failed = failure (record {
  kind = ErrorKind.transport;
  http_status = 0;
  message = codes "WebSocket send failed";
})

unfoldable pub send_action : Client → EncodedAction → PendingAction → Client
send_action s action p =
    let id = s.next_request_id in
    let over_socket = s.config.over_web_socket && s.session_open in
    let t =
      say
        (record s {
          next_request_id = id + 1;
          actions_sent = s.actions_sent + 1;
          address_units_used = s.address_units_used + action_units p;
          pending = insert same_oid s.pending id (record p { via_web_socket = over_socket });
        })
        (sent id action) in
    if over_socket
    then (if s.accepts id then t else complete_action t id send_failed)
    else record t { actions_via_http = s.actions_via_http + 1 }

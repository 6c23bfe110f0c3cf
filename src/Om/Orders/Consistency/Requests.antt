-- ===== src/Om/Orders/Consistency/Requests.antt =====
-- src/om/ExchangeClient.cpp: the table and its index under the results of actions.
use hyperliquid_cpp.Base.{
  ℕ, ◌+◌, ◌||◌, List, [], ◌∷◌, ◌==◌, ◌&&◌, if_cases, option_cases, length, get_elem?,
}
use hyperliquid_cpp.Base.Assoc.{lookup}
use hyperliquid_cpp.Core.Hex.{Cloid}
use hyperliquid_cpp.Core.Errors.{Error, Result, success, failure}
use hyperliquid_cpp.Om.Actions.Wire.{EncodedAction}
use hyperliquid_cpp.Om.Orders.{
  OrderState, is_terminal, Tracked, ActionStatus, ActionKind, PendingAction, ExchangeResponse,
  Client,
}
use hyperliquid_cpp.Om.Orders.Table.{same_oid, find, hold}
use hyperliquid_cpp.Om.Orders.Reconcile.{reconcile, reconcile_amended}
use hyperliquid_cpp.Om.Orders.Results.{
  is_transport_failure, with_error, on_failure, is_error, is_success, on_short_list, on_entry,
  on_statuses, apply_result_to, apply_action_result, count_failure, complete_action, send_action,
}
use hyperliquid_cpp.Om.Orders.Consistency.{IsConsistent, IsFit, hold-IsFit, emit-IsConsistent}
use hyperliquid_cpp.Om.Orders.Consistency.Moves.{
  IsFitting, from_new-IsFitting, on_batch_error-IsFitting, apply_ack-IsFit, on_amended-IsFit,
}

module _ (s : Client) (key : Cloid) (ok : IsConsistent s) where
  module _ (t : Tracked) (fit : IsFit s.orders key (hold s t)) where
    on_failure-IsConsistent :
        (kind : ActionKind) (e : Error) → IsConsistent (on_failure s key kind e t)
    unfolding on_failure reconcile reconcile_amended
    on_failure-IsConsistent ActionKind.order e =
        if_cases IsConsistent (is_transport_failure e)
          (λ y. emit-IsConsistent (reconcile s key) key (hold s t) ok fit)
          (λ n.
            emit-IsConsistent s key _ ok
              (from_new-IsFitting s.orders key s.oid_index t OrderState.rejected fit))
    on_failure-IsConsistent ActionKind.cancel e =
        if_cases IsConsistent (is_transport_failure e)
          (λ y. emit-IsConsistent (reconcile s key) key _ ok fit)
          (λ n. emit-IsConsistent s key _ ok fit)
    on_failure-IsConsistent ActionKind.modify e =
        if_cases IsConsistent (is_transport_failure e || t.canceled_during_modify)
          (λ y. emit-IsConsistent (reconcile_amended s key) key _ ok fit)
          (λ n. emit-IsConsistent s key _ ok fit)
    on_failure-IsConsistent ActionKind.other e = emit-IsConsistent s key _ ok fit

    on_short_list-IsConsistent :
        (kind : ActionKind) (statuses : List ActionStatus)
        → IsConsistent (on_short_list s key kind statuses t)
    unfolding on_short_list reconcile
    on_short_list-IsConsistent kind [] = ok
    on_short_list-IsConsistent kind (st ∷ []) =
        if_cases IsConsistent (is_error st.kind)
          (λ y.
            emit-IsConsistent s key _ ok
              (on_batch_error-IsFitting s.orders key s.oid_index kind (with_error t st.error) fit))
          (λ n. ok)
    on_short_list-IsConsistent kind (st ∷ more ∷ rest) = ok

    on_entry-IsConsistent :
        (p : PendingAction) (i : ℕ) (st : ActionStatus) (kind : ActionKind)
        → IsConsistent (on_entry s key p i st kind t)
    unfolding on_entry reconcile reconcile_amended
    on_entry-IsConsistent p i st ActionKind.order =
        emit-IsConsistent s key _ ok (apply_ack-IsFit s.orders key (hold s t) st fit)
    on_entry-IsConsistent p i st ActionKind.cancel =
        if_cases IsConsistent (is_success st.kind)
          (λ y. emit-IsConsistent s key _ ok (
            if_cases (IsFitting s.orders key s.oid_index) (is_terminal t.order.state) (λ e. fit)
              (λ e. fit)))
          (λ n. emit-IsConsistent (reconcile s key) key _ ok fit)
    on_entry-IsConsistent p i st ActionKind.modify =
        if_cases IsConsistent (is_error st.kind)
          (λ y. emit-IsConsistent (reconcile_amended s key) key _ ok fit)
          (λ n. emit-IsConsistent s key _ ok (
            on_amended-IsFit s.orders key (hold s t) st (get_elem? p.modify_targets i)
              p.modify_trigger fit))
    on_entry-IsConsistent p i st ActionKind.other = emit-IsConsistent s key _ ok fit

    on_statuses-IsConsistent :
        (p : PendingAction) (i : ℕ) (statuses : List ActionStatus)
        → IsConsistent (on_statuses s key p i statuses t)
    unfolding on_statuses
    on_statuses-IsConsistent p i statuses =
        if_cases IsConsistent (length statuses == 0) (λ e. ok)
          (λ e.
            option_cases IsConsistent (get_elem? statuses i)
              (λ e. on_short_list-IsConsistent p.kind statuses)
              (λ st e. on_entry-IsConsistent p i st p.kind))

  apply_result_to-IsConsistent :
      (p : PendingAction) (result : Result ExchangeResponse) (i : ℕ)
      → IsConsistent (apply_result_to s p result i key)
  unfolding apply_result_to
  apply_result_to-IsConsistent p (failure e) i =
      option_cases IsConsistent (find s.orders key) (λ e. ok)
        (λ t at.
          on_failure-IsConsistent (with_error t e.message) (hold-IsFit s key ok t at) p.kind e)
  apply_result_to-IsConsistent p (success response) i =
      option_cases IsConsistent (find s.orders key) (λ e. ok)
        (λ t at. on_statuses-IsConsistent t (hold-IsFit s key ok t at) p i response.statuses)

apply_action_result-IsConsistent :
    (s : Client) (p : PendingAction) (result : Result ExchangeResponse) (i : ℕ) (keys : List Cloid)
    → IsConsistent s
    → IsConsistent (apply_action_result s p result i keys)
unfolding apply_action_result
apply_action_result-IsConsistent s p result i [] ok = ok
apply_action_result-IsConsistent s p result i (key ∷ keys) ok =
    apply_action_result-IsConsistent (apply_result_to s p result i key) p result (i + 1) keys
      (apply_result_to-IsConsistent s key ok p result i)

count_failure-IsConsistent :
    (s : Client) (result : Result ExchangeResponse)
    → IsConsistent s
    → IsConsistent (count_failure s result)
unfolding count_failure
count_failure-IsConsistent s (success r) ok = ok
count_failure-IsConsistent s (failure e) ok = ok

pub complete_action-IsConsistent :
    (s : Client) (id : ℕ) (result : Result ExchangeResponse)
    → IsConsistent s
    → IsConsistent (complete_action s id result)
unfolding complete_action
complete_action-IsConsistent s id result ok =
    option_cases IsConsistent (lookup same_oid s.pending id) (λ e. ok)
      (λ p e.
        let applied =
          apply_action_result-IsConsistent _ p result 0 p.cloids
            (count_failure-IsConsistent _ result ok) in
        if_cases IsConsistent p.has_callback (λ y. applied) (λ n. applied))

pub send_action-IsConsistent :
    (s : Client) (action : EncodedAction) (p : PendingAction)
    → IsConsistent s
    → IsConsistent (send_action s action p)
unfolding send_action
send_action-IsConsistent s action p ok =
    if_cases IsConsistent (s.config.over_web_socket && s.session_open)
      (λ e.
        if_cases IsConsistent (s.accepts s.next_request_id) (λ y. ok)
          (λ n. complete_action-IsConsistent _ s.next_request_id _ ok))
      (λ e. ok)

-- ===== src/Net/WsSession/Recovery/Calls.antt =====
-- The calls of the user keep a way back.
use hyperliquid_cpp.Base.{
  ℕ, ◌+◌, ◌≡◌, refl, sym, ◌∙◌, ◌≢◌, true, false, not, List, [], ◌∷◌, ◌++◌, arith, if_cases, codes,
}
use hyperliquid_cpp.Net.WsSession.{
  Delivery, kept, refused, lost, closed, subscribe_text, unsubscribe_text, WsSession, is_open,
  disarm, dropped,
}
use hyperliquid_cpp.Net.WsSession.Steps.{
  has, erase, say_goodbye, close_socket, start, stop, subscribe, unsubscribe, clear_subscriptions,
  reconnect_now,
}
use hyperliquid_cpp.Net.WsSession.Timers.{
  send_text-IsRecovering, send_all-IsRecovering, connect-IsRecovering,
}
use hyperliquid_cpp.Net.WsSession.Timers.Scheduling.{
  IsTimed, IsScheduled, IsRecovering, IsScheduled-IsRecovering, disarm-IsTimed,
  schedule_reconnect-IsScheduled, on_ws_closed-IsScheduled,
}

pub false-ne-true : false ≢ true
false-ne-true e = cc

-- The first delay of a series stands between the bounds.
pub restarted-IsTimed :
    (s : WsSession)
    → IsTimed s
    → IsTimed (record s { next_delay_ms = s.options.reconnect_min_delay_ms })
unfolding IsTimed
restarted-IsTimed s h = (h.0, h.1, h.2, omega arith, h.5, h.5)

pub say_goodbye-IsTimed :
    (s : WsSession) (d : Delivery)
    → IsTimed s
    → IsTimed (say_goodbye s d) × (say_goodbye s d).running ≡ s.running
unfolding say_goodbye dropped IsTimed IsScheduled
say_goodbye-IsTimed s kept h = (h, refl)
say_goodbye-IsTimed s refused h =
    let a =
      on_ws_closed-IsScheduled (record s { socket = closed; sends = s.sends + 1 }) (codes "send")
        h in
    (a.0.0, a.1)
say_goodbye-IsTimed s lost h =
    let a =
      on_ws_closed-IsScheduled (record s { socket = closed; sends = s.sends + 1 }) (codes "send")
        h in
    (a.0.0, a.1)

pub close_socket-IsTimed :
    (s : WsSession) → IsTimed s → IsTimed (close_socket s) × (close_socket s).running ≡ s.running
unfolding close_socket IsTimed
close_socket-IsTimed s h =
    if_cases (λ s'. IsTimed (record s' { socket = closed }) × s'.running ≡ s.running)
      (is_open s.socket) (λ t. say_goodbye-IsTimed s _ h) (λ t. (h, refl))

pub start-IsRecovering : (s : WsSession) → IsRecovering s → IsRecovering (start s)
unfolding start IsRecovering IsTimed
start-IsRecovering s h =
    if_cases IsRecovering s.running (λ t. h)
      (λ t.
        connect-IsRecovering
          (record s { running = true; next_delay_ms = s.options.reconnect_min_delay_ms })
          (restarted-IsTimed s h.0))

pub stop-IsRecovering : (s : WsSession) → IsRecovering s → IsRecovering (stop s)
unfolding stop IsRecovering IsTimed
stop-IsRecovering s h =
    let a = disarm-IsTimed (record s { running = false }) h.0 in
    let b = close_socket-IsTimed (disarm (record s { running = false })) a.0 in
    (b.0, λ r l. absurd (false-ne-true (sym (b.1 ∙ a.1) ∙ r)))

pub subscribe-IsRecovering :
    (s : WsSession) (json : List ℕ) → IsRecovering s → IsRecovering (subscribe s json)
unfolding subscribe IsRecovering IsTimed
subscribe-IsRecovering s json h =
    if_cases IsRecovering (has json s.subscriptions) (λ t. h)
      (λ t.
        if_cases
          (λ s'. IsRecovering (record s' { subscriptions = s'.subscriptions ++ (json ∷ []) }))
          (is_open s.socket) (λ u. send_text-IsRecovering s (subscribe_text json) h) (λ u. h))

pub unsubscribe-IsRecovering :
    (s : WsSession) (json : List ℕ) → IsRecovering s → IsRecovering (unsubscribe s json)
unfolding unsubscribe IsRecovering IsTimed
unsubscribe-IsRecovering s json h =
    if_cases IsRecovering (not (has json s.subscriptions)) (λ t. h)
      (λ t.
        if_cases (λ s'. IsRecovering (record s' { subscriptions = erase json s'.subscriptions }))
          (is_open s.socket) (λ u. send_text-IsRecovering s (unsubscribe_text json) h) (λ u. h))

pub clear-IsRecovering : (s : WsSession) → IsRecovering s → IsRecovering (clear_subscriptions s)
unfolding clear_subscriptions IsRecovering IsTimed
clear-IsRecovering s h =
    if_cases IsRecovering (is_open s.socket)
      (λ t. send_all-IsRecovering (record s { subscriptions = [] }) _ h) (λ t. h)

pub reconnect_now-IsRecovering :
    (s : WsSession) (reason : List ℕ) → IsRecovering s → IsRecovering (reconnect_now s reason)
unfolding reconnect_now IsRecovering
reconnect_now-IsRecovering s reason h =
    if_cases IsRecovering (not s.running) (λ t. h)
      (λ t.
        let s' = close_socket (record s { next_delay_ms = s.options.reconnect_min_delay_ms }) in
        let a =
          close_socket-IsTimed (record s { next_delay_ms = s.options.reconnect_min_delay_ms })
            (restarted-IsTimed s h.0) in
        if_cases IsRecovering (is_open s.socket)
          (λ u. IsScheduled-IsRecovering _ (on_ws_closed-IsScheduled s' reason a.0).0)
          (λ u.
            IsScheduled-IsRecovering _
              (schedule_reconnect-IsScheduled (disarm s') (disarm-IsTimed s' a.0).0).0))

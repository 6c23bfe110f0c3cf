-- ===== src/Net/WsSession/Recovery.antt =====
-- A session that runs always comes back: it has a socket on its way or a timer that will try again.
mod Calls
use hyperliquid_cpp.Base.{
  ℕ, ◌+◌, ◌-◌, ◌≤◌, ◌≡◌, refl, sym, ap, ◌∙◌, ◌≢◌, true, false, ◌&&◌, not, Option, none, some, List,
  [], ◌∷◌, ◌++◌, map, arith, ltb, if_cases, codes,
}
use hyperliquid_cpp.Net.WsSession.{
  WsSessionOptions, Delivery, kept, refused, lost, Network, Socket, idle, connecting, upgrading,
  opened, closed, subscribe_text, unsubscribe_text, ping_text, raw_text, Timer, reconnect,
  heartbeat, WsSession, new_session, is_open, is_live, put_timer, report, disarm, dropped,
}
use hyperliquid_cpp.Net.WsSession.Steps.{
  has, erase, say_goodbye, close_socket, start, stop, subscribe, unsubscribe, clear_subscriptions,
  send, reconnect_now, on_ws_open, on_ws_text, on_reconnect_timer, on_heartbeat_timer, run_timer,
  fire, on_tls_connected, on_upgraded, Reachable, created, starts, stops, subscribes, unsubscribes,
  clears, sends, restarts, upgrades, opens, receives, drops, fires,
}
use hyperliquid_cpp.Net.WsSession.Timers.{
  send_text-IsRecovering, send_all-IsRecovering, arm_heartbeat-IsRecovering, connect-IsRecovering,
}
use hyperliquid_cpp.Net.WsSession.Timers.Scheduling.{
  IsBacked, IsTimed, IsScheduled, IsRecovering, IsScheduled-IsRecovering, put_timer-other,
  put_timer-IsBacked, none-ne-some, removed-IsTimed, disarm-IsTimed, schedule_reconnect-IsScheduled,
  on_ws_closed-IsScheduled,
}
use hyperliquid_cpp.Net.WsSession.Recovery.Calls.{
  false-ne-true, restarted-IsTimed, say_goodbye-IsTimed, close_socket-IsTimed, start-IsRecovering,
  stop-IsRecovering, subscribe-IsRecovering, unsubscribe-IsRecovering, clear-IsRecovering,
  reconnect_now-IsRecovering,
}

on_upgraded-IsRecovering :
    (s : WsSession) (now : ℕ) → IsRecovering s → IsRecovering (on_upgraded s now)
unfolding on_upgraded on_ws_open report IsRecovering IsTimed is_live
on_upgraded-IsRecovering s now h = arm_heartbeat-IsRecovering _ (
    send_all-IsRecovering
      (record s {
        socket = opened;
        told = [];
        next_delay_ms = s.options.reconnect_min_delay_ms;
        last_rx_ms = now;
      })
      (map subscribe_text s.subscriptions)
      (restarted-IsTimed s h.0, λ r l. absurd (false-ne-true (sym l))))

on_reconnect_timer-IsRecovering :
    (s : WsSession)
    → IsTimed (record s { reconnect_timer = 0 })
    → (is_open s.socket ≡ true → is_live s.socket ≡ true)
    → IsRecovering (on_reconnect_timer s)
unfolding on_reconnect_timer IsRecovering IsTimed
on_reconnect_timer-IsRecovering s h live =
    if_cases IsRecovering (s.running && not (is_open s.socket))
      (λ t.
        connect-IsRecovering (record s { reconnect_timer = 0; reconnects = s.reconnects + 1 }) h)
      (λ t. (h, λ r l. absurd (false-ne-true (sym l ∙ live (ground (arith, r, t))))))

on_heartbeat_timer-IsRecovering :
    (s : WsSession) (now : ℕ) → IsRecovering s → IsRecovering (on_heartbeat_timer s now)
unfolding on_heartbeat_timer IsRecovering IsTimed
on_heartbeat_timer-IsRecovering s now h =
    if_cases IsRecovering (not (is_open s.socket)) (λ t. h)
      (λ t.
        if_cases IsRecovering (ltb s.options.stale_timeout_ms (now - s.last_rx_ms))
          (λ u.
            IsScheduled-IsRecovering _
              (on_ws_closed-IsScheduled _ (codes "stale connection")
                (close_socket-IsTimed (record s { heartbeat_timer = 0 }) h.0).0).0)
          (λ u.
            arm_heartbeat-IsRecovering _
              (send_text-IsRecovering (record s { heartbeat_timer = 0 }) ping_text h)))

open-live : (socket : Socket) → is_open socket ≡ true → is_live socket ≡ true
unfolding is_open is_live
open-live idle e = e
open-live connecting e = refl
open-live upgrading e = refl
open-live opened e = refl
open-live closed e = e

heartbeat-ne-reconnect :
    {a b : ℕ} → ¬ (◌≡◌ {A = Option Timer} (some (heartbeat a)) (some (reconnect b)))
heartbeat-ne-reconnect e = cc

-- A heartbeat timer is taken out of the loop.
beaten-IsRecovering :
    (s : WsSession) (id delay : ℕ)
    → IsRecovering s
    → s.timers id ≡ some (heartbeat delay)
    → IsRecovering (record s { timers = put_timer s.timers id none })
unfolding IsRecovering IsTimed
beaten-IsRecovering s id delay h e = (
  (
    λ ne.
        let known = h.0.0 ne in
        (
          known.0,
          put_timer-other s.timers id s.reconnect_timer none
                (λ same. heartbeat-ne-reconnect (sym e ∙ ap s.timers (sym same) ∙ known.1))
              ∙ known.1,
        ),
    h.0.1,
    put_timer-IsBacked s.options s.timers id none h.0.2 (λ d u. absurd (none-ne-some u)),
    h.0.3,
    h.0.4,
    h.0.5,
  ),
  h.1,
)

fire-IsRecovering :
    (s : WsSession) (id now : ℕ) (timer : Timer)
    → IsRecovering s
    → s.timers id ≡ some timer
    → IsRecovering (fire s id now timer)
unfolding fire run_timer IsRecovering
fire-IsRecovering s id now (reconnect delay) h e =
    on_reconnect_timer-IsRecovering (record s { timers = put_timer s.timers id none })
      (removed-IsTimed s id h.0) (open-live s.socket)
fire-IsRecovering s id now (heartbeat delay) h e =
    on_heartbeat_timer-IsRecovering (record s { timers = put_timer s.timers id none }) now
      (beaten-IsRecovering s id delay h e)

Reachable-IsRecovering :
    {o : WsSessionOptions} {n : Network} {s : WsSession}
    → o.reconnect_min_delay_ms ≤ o.reconnect_max_delay_ms
    → Reachable o n s
    → IsRecovering s
unfolding new_session IsRecovering IsTimed IsBacked send on_tls_connected is_live on_ws_text report
    dropped
Reachable-IsRecovering le created = (
  (λ ne. absurd (ne refl), omega arith, λ id d e. absurd (none-ne-some e), omega arith, le, le),
  λ r l. absurd (false-ne-true r),
)
Reachable-IsRecovering le (starts before) = start-IsRecovering _ (Reachable-IsRecovering le before)
Reachable-IsRecovering le (stops before) = stop-IsRecovering _ (Reachable-IsRecovering le before)
Reachable-IsRecovering le (subscribes json before) =
    subscribe-IsRecovering _ json (Reachable-IsRecovering le before)
Reachable-IsRecovering le (unsubscribes json before) =
    unsubscribe-IsRecovering _ json (Reachable-IsRecovering le before)
Reachable-IsRecovering le (clears before) = clear-IsRecovering _ (Reachable-IsRecovering le before)
Reachable-IsRecovering le (sends text before) =
    send_text-IsRecovering _ (raw_text text) (Reachable-IsRecovering le before)
Reachable-IsRecovering le (restarts reason before) =
    reconnect_now-IsRecovering _ reason (Reachable-IsRecovering le before)
Reachable-IsRecovering le (upgrades before e) =
    ((Reachable-IsRecovering le before).0, λ r l. absurd (false-ne-true (sym l)))
Reachable-IsRecovering le (opens now before e) =
    on_upgraded-IsRecovering _ now (Reachable-IsRecovering le before)
Reachable-IsRecovering le (receives now message before e) = Reachable-IsRecovering le before
Reachable-IsRecovering le (drops {s = s} reason before e) =
    IsScheduled-IsRecovering _
      (on_ws_closed-IsScheduled (record s { socket = closed }) reason
        (Reachable-IsRecovering le before).0).0
Reachable-IsRecovering le (fires id now timer before e) =
    fire-IsRecovering _ id now timer (Reachable-IsRecovering le before) e

-- A session that runs and has no socket open or on its way has a timer in the loop that will connect
-- again, after a delay between the least and the greatest that its options give, whatever its user
-- calls, however the network behaves, and whichever frames it fails on.
pub Reachable-reconnects :
    (o : WsSessionOptions) (n : Network) (s : WsSession)
    → o.reconnect_min_delay_ms ≤ o.reconnect_max_delay_ms
    → Reachable o n s
    → s.running ≡ true
    → is_live s.socket ≡ false
    → (delay : ℕ) × (s.timers s.reconnect_timer ≡ some (reconnect delay))
      × s.options.reconnect_min_delay_ms ≤ delay
      × delay ≤ s.options.reconnect_max_delay_ms
unfolding IsRecovering IsTimed IsBacked
Reachable-reconnects o n s le before runs down =
    let h = Reachable-IsRecovering le before in
    let known = h.0.0 (h.1 runs down) in
    let bounds = h.0.2 s.reconnect_timer known.0 known.1 in (known.0, known.1, bounds.0, bounds.1)

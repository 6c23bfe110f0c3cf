-- ===== src/Net/WsSession/Told.antt =====
-- The calls and the callbacks of a session keep the venue told of its subscriptions.
mod Calls
use mathlib.Core.Path.{subst}
use hyperliquid_cpp.Base.{
  ℕ, ◌+◌, ◌-◌, ◌≡◌, refl, sym, ap, ◌∙◌, Bool, true, false, ◌&&◌, not, none, List, [], ◌∷◌, ◌++◌,
  map, ltb, if◌then◌else◌, if_cases, codes,
}
use hyperliquid_cpp.Net.WsSession.{
  WsSessionOptions, Delivery, kept, refused, lost, Attempt, begun, bad_url, no_route, Network,
  Socket, connecting, opened, closed, Text, subscribe_text, unsubscribe_text, ping_text, raw_text,
  Timer, reconnect, heartbeat, WsSession, new_session, is_open, put_timer, report, disarm,
  schedule_reconnect, arm_heartbeat, on_ws_closed, dropped, send_text, send_all,
}
use hyperliquid_cpp.Net.WsSession.Steps.{
  has, erase, on_attempt, connect, say_goodbye, close_socket, start, stop, subscribe, unsubscribe,
  clear_subscriptions, send, reconnect_now, on_ws_open, on_ws_text, on_reconnect_timer,
  on_heartbeat_timer, run_timer, fire, on_tls_connected, on_upgraded, Reachable, created, starts,
  stops, subscribes, unsubscribes, clears, sends, restarts, upgrades, opens, receives, drops, fires,
}
use hyperliquid_cpp.Net.WsSession.Venue.{
  after_text, venue, IsDistinct, IsDistinct-append, IsDistinct-erase, venue-subscribe,
  venue-unsubscribe,
}
use hyperliquid_cpp.Net.WsSession.Telling.{
  outline, outline-disarm, outline-schedule, Knows, IsDown, on_ws_closed-IsDown, dropped-IsDown,
  schedule-IsDown, disarm-IsDown, Tells, IsDown-Tells, send_text-Tells, send_all-Tells,
}
use hyperliquid_cpp.Net.WsSession.Told.Calls.{
  IsTold, Tells-IsTold, IsDown-IsTold, same_outline-IsTold, on_attempt-IsTold, connect-IsTold,
  say_goodbye_subscriptions, close_socket-IsDown, start-IsTold, stop-IsTold, subscribe-IsTold,
  unsubscribe-IsTold, clear-IsTold, send-IsTold,
}

reconnect_now-IsTold :
    (s : WsSession) (reason : List ℕ) → IsTold s → IsTold (reconnect_now s reason)
unfolding reconnect_now IsTold
reconnect_now-IsTold s reason h =
    let s' = close_socket (record s { next_delay_ms = s.options.reconnect_min_delay_ms }) in
    let a = close_socket-IsDown (record s { next_delay_ms = s.options.reconnect_min_delay_ms }) in
    if_cases IsTold (not s.running) (λ t. h)
      (λ t.
        if_cases IsTold (is_open s.socket)
          (λ o.
            IsDown-IsTold (on_ws_closed s' reason) s.subscriptions h.0
              (on_ws_closed-IsDown s' reason s.subscriptions a))
          (λ o.
            IsDown-IsTold (schedule_reconnect (disarm s')) s.subscriptions h.0
              (schedule-IsDown (disarm s') s.subscriptions (disarm-IsDown s' s.subscriptions a))))

on_upgraded-IsTold : (s : WsSession) (now : ℕ) → IsTold s → IsTold (on_upgraded s now)
unfolding on_upgraded on_ws_open report arm_heartbeat IsTold Knows Tells venue
on_upgraded-IsTold s now h =
    let s' = record s {
      socket = opened;
      told = [];
      next_delay_ms = s.options.reconnect_min_delay_ms;
      last_rx_ms = now;
    } in
    Tells-IsTold (send_all s' (map subscribe_text s.subscriptions)) s.subscriptions h.0 (
      subst
        (λ known. Tells (send_all s' (map subscribe_text s.subscriptions)) known s.subscriptions)
        (venue-subscribe [] s.subscriptions h.0)
        (send_all-Tells s' (map subscribe_text s.subscriptions) [] s.subscriptions
          ((λ u. refl), refl)))

fire-IsTold : (s : WsSession) (id now : ℕ) (timer : Timer) → IsTold s → IsTold (fire s id now timer)
unfolding fire run_timer on_reconnect_timer on_heartbeat_timer arm_heartbeat IsTold after_text Knows
fire-IsTold s id now (reconnect delay) h =
    if_cases IsTold (s.running && not (is_open s.socket))
      (λ t.
        connect-IsTold
          (record s {
            timers = put_timer s.timers id none;
            reconnect_timer = 0;
            reconnects = s.reconnects + 1;
          })
          h)
      (λ t. h)
fire-IsTold s id now (heartbeat delay) h =
    let s' = record s { timers = put_timer s.timers id none; heartbeat_timer = 0 } in
    if_cases IsTold (not (is_open s.socket)) (λ t. h)
      (λ t.
        if_cases IsTold (ltb s.options.stale_timeout_ms (now - s.last_rx_ms))
          (λ u.
            IsDown-IsTold (on_ws_closed (close_socket s') (codes "stale connection"))
              s.subscriptions h.0
              (on_ws_closed-IsDown (close_socket s') (codes "stale connection") s.subscriptions
                (close_socket-IsDown s')))
          (λ u. send-IsTold s' ping_text refl h))

raw-IsTold : (s : WsSession) (text : List ℕ) → IsTold s → IsTold (send_text s (raw_text text)).0
unfolding after_text
raw-IsTold s text h = send-IsTold s (raw_text text) refl h

Reachable-IsTold : {o : WsSessionOptions} {n : Network} {s : WsSession} → Reachable o n s → IsTold s
unfolding new_session IsTold Knows IsDistinct is_open send on_tls_connected on_ws_text report
Reachable-IsTold created = (tt, λ u. absurd (cc u))
Reachable-IsTold (starts {s = s} before) = start-IsTold s (Reachable-IsTold before)
Reachable-IsTold (stops {s = s} before) = stop-IsTold s (Reachable-IsTold before)
Reachable-IsTold (subscribes {s = s} json before) =
    subscribe-IsTold s json (Reachable-IsTold before)
Reachable-IsTold (unsubscribes {s = s} json before) =
    unsubscribe-IsTold s json (Reachable-IsTold before)
Reachable-IsTold (clears {s = s} before) = clear-IsTold s (Reachable-IsTold before)
Reachable-IsTold (sends {s = s} text before) = raw-IsTold s text (Reachable-IsTold before)
Reachable-IsTold (restarts {s = s} reason before) =
    reconnect_now-IsTold s reason (Reachable-IsTold before)
Reachable-IsTold (upgrades {s = s} before e) = ((Reachable-IsTold before).0, λ u. absurd (cc u))
Reachable-IsTold (opens {s = s} now before e) = on_upgraded-IsTold s now (Reachable-IsTold before)
Reachable-IsTold (receives now message before e) = Reachable-IsTold before
Reachable-IsTold (drops {s = s} reason before e) =
    IsDown-IsTold (dropped s reason) s.subscriptions (Reachable-IsTold before).0
      (dropped-IsDown s reason)
Reachable-IsTold (fires {s = s} id now timer before e) =
    fire-IsTold s id now timer (Reachable-IsTold before)

-- While a session is connected, the subscribe and unsubscribe texts that it has sent on this
-- connection leave the venue with exactly the session's subscriptions, in their order and none twice:
-- after any calls, reconnections and failed sends. Texts that the user writes himself do not count.
pub Reachable-venue :
    (o : WsSessionOptions) (n : Network) (s : WsSession)
    → Reachable o n s
    → is_open s.socket ≡ true
    → venue [] s.told ≡ s.subscriptions × IsDistinct s.subscriptions
unfolding IsTold Knows
Reachable-venue o n s before up = let h = Reachable-IsTold before in (h.1 up, h.0)

-- ===== src/Net/WsSession/Runs.antt =====
-- A session that connects and subscribes, and one that finds no route.
use hyperliquid_cpp.Base.{ℕ, ◌≤◌, ◌≡◌, refl, some, List, [], arith, codes}
use hyperliquid_cpp.Base.Texts.{same_text}
use hyperliquid_cpp.Net.WsSession.{
  WsSessionOptions, kept, begun, no_route, Network, reconnect, WsSession, new_session, is_open,
  is_live, report, schedule_reconnect, arm_heartbeat, deliver, send_text, send_all,
}
use hyperliquid_cpp.Net.WsSession.Steps.{
  has, on_attempt, connect, start, subscribe, on_ws_open, on_tls_connected, on_upgraded, Reachable,
  created, starts, subscribes, upgrades, opens,
}
use hyperliquid_cpp.Net.WsSession.Venue.{venue, IsDistinct}
use hyperliquid_cpp.Net.WsSession.Recovery.{Reachable-reconnects}
use hyperliquid_cpp.Net.WsSession.Told.{Reachable-venue}

abbrev usual : WsSessionOptions
usual = record {
  ping_interval_ms = 20000;
  stale_timeout_ms = 60000;
  reconnect_min_delay_ms = 250;
  reconnect_max_delay_ms = 10000;
}

abbrev steady : Network
steady = record { delivery = λ k. kept; attempt = λ k. begun }

abbrev cut_off : Network
cut_off = record { delivery = λ k. kept; attempt = λ k. no_route }

abbrev trades : List ℕ
trades = codes "trades"

abbrev book : List ℕ
book = codes "l2Book"

-- Connected, with two subscriptions.
abbrev subscribed : WsSession
subscribed =
    subscribe
      (on_upgraded (on_tls_connected (start (subscribe (new_session usual steady) trades))) 5) book

subscribed-Reachable : Reachable usual steady subscribed
unfolding new_session subscribe start connect on_attempt on_tls_connected has is_open
subscribed-Reachable =
    subscribes book (opens 5 (upgrades (starts (subscribes trades created)) refl) refl)

Reachable-venue_example :
    venue [] subscribed.told ≡ subscribed.subscriptions × IsDistinct subscribed.subscriptions
unfolding new_session subscribe start connect on_attempt on_tls_connected on_upgraded on_ws_open
    send_all send_text deliver report arm_heartbeat has is_open same_text
Reachable-venue_example = Reachable-venue usual steady subscribed subscribed-Reachable refl

abbrev retrying : WsSession
retrying = start (new_session usual cut_off)

Reachable-reconnects_example :
    (delay : ℕ) × (retrying.timers retrying.reconnect_timer ≡ some (reconnect delay))
    × retrying.options.reconnect_min_delay_ms ≤ delay
    × delay ≤ retrying.options.reconnect_max_delay_ms
unfolding new_session start connect on_attempt schedule_reconnect is_live
Reachable-reconnects_example =
    Reachable-reconnects usual cut_off retrying (omega arith) (starts created) refl refl

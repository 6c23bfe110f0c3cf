-- ===== src/Net/WsSession/Steps.antt =====
-- src/net/WsSession.cpp: the calls, the callbacks and the timers of a session, and the states that
-- they lead to.
use hyperliquid_cpp.Base.{
  ℕ, ◌+◌, ◌-◌, ◌≡◌, Bool, true, false, not, ◌&&◌, ◌||◌, none, some, List, [], ◌∷◌, ◌++◌, map, ltb,
  if◌then◌else◌, codes,
}
use hyperliquid_cpp.Base.Texts.{same_text}
use hyperliquid_cpp.Net.WsSession.{
  WsSessionOptions, Delivery, kept, refused, lost, Attempt, begun, bad_url, no_route, Network,
  connecting, upgrading, opened, closed, subscribe_text, unsubscribe_text, ping_text, raw_text,
  Timer, reconnect, heartbeat, session_open, session_message, WsSession, new_session, is_open,
  is_live, put_timer, report, disarm, schedule_reconnect, arm_heartbeat, on_ws_closed, dropped,
  send_text, send_all,
}

unfoldable pub has : List ℕ → List (List ℕ) → Bool
has json [] = false
has json (x ∷ xs) = same_text x json || has json xs

-- The list without the first entry of that text.
unfoldable pub erase : List ℕ → List (List ℕ) → List (List ℕ)
erase json [] = []
erase json (x ∷ xs) = let rest = erase json xs in if same_text x json then xs else x ∷ rest

-- `WebSocketClient::connect` and what `connect` does when it fails.
unfoldable pub on_attempt : WsSession → Attempt → WsSession
on_attempt s begun = record s { socket = connecting }
on_attempt s bad_url = schedule_reconnect s
on_attempt s no_route = schedule_reconnect (record s { socket = closed })

unfoldable pub connect : WsSession → WsSession
connect s = on_attempt (record s { attempts = s.attempts + 1 }) (s.network.attempt s.attempts)

-- The close frame of `WebSocketClient::close`, and the rest of that function.
unfoldable pub say_goodbye : WsSession → Delivery → WsSession
say_goodbye s kept = record s { sends = s.sends + 1 }
say_goodbye s refused = dropped (record s { sends = s.sends + 1 }) (codes "send")
say_goodbye s lost = dropped (record s { sends = s.sends + 1 }) (codes "send")

unfoldable pub close_socket : WsSession → WsSession
close_socket s =
    let s' = if is_open s.socket then say_goodbye s (s.network.delivery s.sends) else s in
    record s' { socket = closed }

unfoldable pub start : WsSession → WsSession
start s =
    if s.running
    then s
    else connect (record s { running = true; next_delay_ms = s.options.reconnect_min_delay_ms })

unfoldable pub stop : WsSession → WsSession
stop s = close_socket (disarm (record s { running = false }))

unfoldable pub subscribe : WsSession → List ℕ → WsSession
subscribe s json =
    if has json s.subscriptions
    then s
    else let s' = if is_open s.socket then (send_text s (subscribe_text json)).0 else s in
      record s' { subscriptions = s'.subscriptions ++ (json ∷ []) }

unfoldable pub unsubscribe : WsSession → List ℕ → WsSession
unsubscribe s json =
    if not (has json s.subscriptions)
    then s
    else let s' = if is_open s.socket then (send_text s (unsubscribe_text json)).0 else s in
      record s' { subscriptions = erase json s'.subscriptions }

unfoldable pub clear_subscriptions : WsSession → WsSession
clear_subscriptions s =
    let s' = record s { subscriptions = [] } in
    if is_open s'.socket then send_all s' (map unsubscribe_text s.subscriptions) else s'

unfoldable pub send : WsSession → List ℕ → WsSession × Bool
send s text = send_text s (raw_text text)

unfoldable pub reconnect_now : WsSession → List ℕ → WsSession
reconnect_now s reason =
    if not s.running
    then s
    else let s' = close_socket (record s { next_delay_ms = s.options.reconnect_min_delay_ms }) in
      if is_open s.socket then on_ws_closed s' reason else schedule_reconnect (disarm s')

unfoldable pub on_ws_open : WsSession → ℕ → WsSession
on_ws_open s now =
    let s' = record s { next_delay_ms = s.options.reconnect_min_delay_ms; last_rx_ms = now } in
    report (arm_heartbeat (send_all s' (map subscribe_text s'.subscriptions))) session_open

unfoldable pub on_ws_text : WsSession → ℕ → List ℕ → WsSession
on_ws_text s now message = report (record s { last_rx_ms = now }) (session_message message)

-- The tasks of the two timers.
unfoldable pub on_reconnect_timer : WsSession → WsSession
on_reconnect_timer s =
    if s.running && not (is_open s.socket)
    then connect (record s { reconnect_timer = 0; reconnects = s.reconnects + 1 })
    else record s { reconnect_timer = 0 }

unfoldable pub on_heartbeat_timer : WsSession → ℕ → WsSession
on_heartbeat_timer s now =
    let s' = record s { heartbeat_timer = 0 } in
    if not (is_open s.socket)
    then s'
    else if ltb s.options.stale_timeout_ms (now - s.last_rx_ms)
    then on_ws_closed (close_socket s') (codes "stale connection")
    else arm_heartbeat (send_text s' ping_text).0

unfoldable pub run_timer : WsSession → ℕ → Timer → WsSession
run_timer s now (reconnect delay) = on_reconnect_timer s
run_timer s now (heartbeat delay) = on_heartbeat_timer s now

-- The loop takes a timer out before it runs its task.
unfoldable pub fire : WsSession → ℕ → ℕ → Timer → WsSession
fire s id now timer = run_timer (record s { timers = put_timer s.timers id none }) now timer

-- The socket is connected, and then the upgrade is accepted.
unfoldable pub on_tls_connected : WsSession → WsSession
on_tls_connected s = record s { socket = upgrading }

unfoldable pub on_upgraded : WsSession → ℕ → WsSession
on_upgraded s now = on_ws_open (record s { socket = opened; told = [] }) now

-- The states of a session, whatever its user, the network and the loop do.
pub data Reachable (o : WsSessionOptions) (n : Network) : WsSession → Type 0 where
  created : Reachable o n (new_session o n)
  starts : {s : WsSession} → Reachable o n s → Reachable o n (start s)
  stops : {s : WsSession} → Reachable o n s → Reachable o n (stop s)
  subscribes : {s : WsSession} (json : List ℕ) → Reachable o n s → Reachable o n (subscribe s json)
  unsubscribes :
      {s : WsSession} (json : List ℕ) → Reachable o n s → Reachable o n (unsubscribe s json)
  clears : {s : WsSession} → Reachable o n s → Reachable o n (clear_subscriptions s)
  sends : {s : WsSession} (text : List ℕ) → Reachable o n s → Reachable o n (send s text).0
  restarts :
      {s : WsSession} (reason : List ℕ) → Reachable o n s → Reachable o n (reconnect_now s reason)
  upgrades :
      {s : WsSession} → Reachable o n s → s.socket ≡ connecting → Reachable o n (on_tls_connected s)
  opens :
      {s : WsSession} (now : ℕ)
      → Reachable o n s
      → s.socket ≡ upgrading
      → Reachable o n (on_upgraded s now)
  receives :
      {s : WsSession} (now : ℕ) (message : List ℕ)
      → Reachable o n s
      → s.socket ≡ opened
      → Reachable o n (on_ws_text s now message)
  drops :
      {s : WsSession} (reason : List ℕ)
      → Reachable o n s
      → is_live s.socket ≡ true
      → Reachable o n (dropped s reason)
  fires :
      {s : WsSession} (id now : ℕ) (timer : Timer)
      → Reachable o n s
      → s.timers id ≡ some timer
      → Reachable o n (fire s id now timer)

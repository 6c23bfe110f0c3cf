-- ===== src/Net/WsSession.antt =====
-- include/hl/net/WsSession.h and src/net/WsSession.cpp: the session that keeps a WebSocket open. Its
-- socket is the state of `WebSocketClient` in src/net/WebSocketClient.cpp, and its timers are those
-- that it has in the event loop. A listener that hears of a close leaves the session alone until
-- the call is over; what it does in its other callbacks are further steps.
pub mod Steps
mod Timers
mod Recovery
mod Venue
mod Telling
mod Told
mod Runs
use hyperliquid_cpp.Base.{
  ℕ, zero, suc, ◌+◌, ◌-◌, ◌*◌, min, Bool, true, false, not, ◌&&◌, ◌||◌, Option, none, some, List,
  [], ◌∷◌, ◌++◌, map, ltb, ◌==◌, if◌then◌else◌, codes,
}

pub record WsSessionOptions : Type 0 where
  pub ping_interval_ms : ℕ
  pub stale_timeout_ms : ℕ
  pub reconnect_min_delay_ms : ℕ
  pub reconnect_max_delay_ms : ℕ

-- What the stream does with a frame: it keeps it, refuses it and fails, or takes it and fails.
pub data Delivery : Type 0 where
  kept refused lost : Delivery

-- What becomes of a call of `WebSocketClient::connect`.
pub data Attempt : Type 0 where
  begun bad_url no_route : Attempt

-- The network: what happens to the frame and to the attempt of each number.
pub record Network : Type 0 where
  pub delivery : ℕ → Delivery
  pub attempt : ℕ → Attempt

pub data Socket : Type 0 where
  idle connecting upgrading opened closed : Socket

-- The texts that a session sends.
pub data Text : Type 0 where
  subscribe_text : List ℕ → Text
  unsubscribe_text : List ℕ → Text
  ping_text : Text
  raw_text : List ℕ → Text

unfoldable pub render : Text → List ℕ
render (subscribe_text json) =
    codes "{\"method\":\"subscribe\",\"subscription\":" ++ (json ++ codes "}")
render (unsubscribe_text json) =
    codes "{\"method\":\"unsubscribe\",\"subscription\":" ++ (json ++ codes "}")
render ping_text = codes "{\"method\":\"ping\"}"
render (raw_text text) = text

-- A timer's task and its delay.
pub data Timer : Type 0 where
  reconnect heartbeat : ℕ → Timer

-- The calls of the listener.
pub data Report : Type 0 where
  session_open : Report
  session_message session_closed : List ℕ → Report

-- `told` are the texts on the connection that is open, the first one first; `sends` and `attempts`
-- count the frames and the attempts so far.
pub record WsSession : Type 0 where
  pub options : WsSessionOptions
  pub network : Network
  pub socket : Socket
  pub told : List Text
  pub sends : ℕ
  pub attempts : ℕ
  pub subscriptions : List (List ℕ)
  pub running : Bool
  pub next_delay_ms : ℕ
  pub last_rx_ms : ℕ
  pub reconnects : ℕ
  pub reconnect_timer : ℕ
  pub heartbeat_timer : ℕ
  pub timers : ℕ → Option Timer
  pub next_timer_id : ℕ
  pub reports : List Report

unfoldable pub new_session : WsSessionOptions → Network → WsSession
new_session options network = record {
  options = options;
  network = network;
  socket = idle;
  told = [];
  sends = 0;
  attempts = 0;
  subscriptions = [];
  running = false;
  next_delay_ms = options.reconnect_min_delay_ms;
  last_rx_ms = 0;
  reconnects = 0;
  reconnect_timer = 0;
  heartbeat_timer = 0;
  timers = λ id. none;
  next_timer_id = 1;
  reports = [];
}

unfoldable pub is_open : Socket → Bool
is_open idle = false
is_open connecting = false
is_open upgrading = false
is_open opened = true
is_open closed = false

-- On its way to a connection, or connected.
unfoldable pub is_live : Socket → Bool
is_live idle = false
is_live connecting = true
is_live upgrading = true
is_live opened = true
is_live closed = false

-- A timer is put into the loop or taken out of it.
unfoldable pub put_timer : (ℕ → Option Timer) → ℕ → Option Timer → ℕ → Option Timer
put_timer timers id timer other = if other == id then timer else timers other

unfoldable pub report : WsSession → Report → WsSession
report s r = record s { reports = s.reports ++ (r ∷ []) }

unfoldable pub disarm_reconnect : WsSession → WsSession
disarm_reconnect s =
    if s.reconnect_timer == 0
    then s
    else record s { timers = put_timer s.timers s.reconnect_timer none; reconnect_timer = 0 }

unfoldable pub disarm_heartbeat : WsSession → WsSession
disarm_heartbeat s =
    if s.heartbeat_timer == 0
    then s
    else record s { timers = put_timer s.timers s.heartbeat_timer none; heartbeat_timer = 0 }

unfoldable pub disarm : WsSession → WsSession
disarm s = disarm_heartbeat (disarm_reconnect s)

unfoldable pub schedule_reconnect : WsSession → WsSession
schedule_reconnect s = if not s.running || not (s.reconnect_timer == 0) then s else record s {
  next_delay_ms = min (s.next_delay_ms * 2) s.options.reconnect_max_delay_ms;
  reconnect_timer = s.next_timer_id;
  timers = put_timer s.timers s.next_timer_id (some (reconnect s.next_delay_ms));
  next_timer_id = s.next_timer_id + 1;
}

unfoldable pub arm_heartbeat : WsSession → WsSession
arm_heartbeat s = record s {
  heartbeat_timer = s.next_timer_id;
  timers = put_timer s.timers s.next_timer_id (some (heartbeat s.options.ping_interval_ms));
  next_timer_id = s.next_timer_id + 1;
}

unfoldable pub on_ws_closed : WsSession → List ℕ → WsSession
on_ws_closed s reason = schedule_reconnect (report (disarm s) (session_closed reason))

-- The socket closes without a call of `close`, and says so.
unfoldable pub dropped : WsSession → List ℕ → WsSession
dropped s reason = on_ws_closed (record s { socket = closed }) reason

-- A frame on an open socket: a stream that fails calls back before it returns.
unfoldable pub deliver : WsSession → Text → Delivery → WsSession × Bool
deliver s t kept = (record s { told = s.told ++ (t ∷ []); sends = s.sends + 1 }, true)
deliver s t refused = (dropped (record s { sends = s.sends + 1 }) (codes "send"), false)
deliver s t lost = (dropped (record s { sends = s.sends + 1 }) (codes "send"), true)

unfoldable pub send_text : WsSession → Text → WsSession × Bool
send_text s t = if is_open s.socket then deliver s t (s.network.delivery s.sends) else (s, false)

unfoldable pub send_all : WsSession → List Text → WsSession
send_all s [] = s
send_all s (t ∷ ts) = send_all (send_text s t).0 ts

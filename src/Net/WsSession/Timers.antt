-- ===== src/Net/WsSession/Timers.antt =====
-- Sending and connecting leave a session that runs a way back.
pub mod Scheduling
use hyperliquid_cpp.Base.{
  ℕ, ◌+◌, ◌*◌, ◌≤◌, ◌<◌, min, ◌≡◌, refl, ◌∙◌, ◌≢◌, inl, inr, Bool, true, false, ◌||◌, not, Option,
  none, some, List, [], ◌∷◌, arith, ◌==◌, Bool-cases, if_cases, codes,
}
use hyperliquid_cpp.Net.WsSession.{
  WsSessionOptions, Delivery, kept, refused, lost, Attempt, begun, bad_url, no_route, closed, Text,
  Timer, reconnect, heartbeat, session_closed, WsSession, is_open, is_live, put_timer, report,
  disarm_reconnect, disarm_heartbeat, disarm, schedule_reconnect, arm_heartbeat, on_ws_closed,
  dropped, deliver, send_text, send_all,
}
use hyperliquid_cpp.Net.WsSession.Steps.{on_attempt, connect}
use hyperliquid_cpp.Net.WsSession.Timers.Scheduling.{
  IsBacked, IsTimed, IsScheduled, IsRecovering, IsScheduled-IsRecovering, put_timer-same,
  put_timer-other, put_timer-IsBacked, none-ne-some, removed-IsTimed, cleared-IsTimed,
  disarm_reconnect-IsTimed, disarm_heartbeat-IsTimed, disarm-IsTimed, armed-IsTimed, has_timer,
  later_timer, schedule_reconnect-IsScheduled, on_ws_closed-IsScheduled,
}

pub deliver-IsRecovering :
    (s : WsSession) (t : Text) (d : Delivery) → IsRecovering s → IsRecovering (deliver s t d).0
unfolding deliver dropped IsRecovering IsTimed
deliver-IsRecovering s t kept h = h
deliver-IsRecovering s t refused h =
    IsScheduled-IsRecovering _
      (on_ws_closed-IsScheduled (record s { socket = closed; sends = s.sends + 1 }) (codes "send")
        h.0).0
deliver-IsRecovering s t lost h =
    IsScheduled-IsRecovering _
      (on_ws_closed-IsScheduled (record s { socket = closed; sends = s.sends + 1 }) (codes "send")
        h.0).0

pub send_text-IsRecovering :
    (s : WsSession) (t : Text) → IsRecovering s → IsRecovering (send_text s t).0
unfolding send_text
send_text-IsRecovering s t h =
    if_cases (λ (r : WsSession × Bool). IsRecovering r.0) (is_open s.socket)
      (λ o. deliver-IsRecovering s t _ h) (λ o. h)

pub send_all-IsRecovering :
    (s : WsSession) (ts : List Text) → IsRecovering s → IsRecovering (send_all s ts)
unfolding send_all
send_all-IsRecovering s [] h = h
send_all-IsRecovering s (t ∷ ts) h =
    send_all-IsRecovering (send_text s t).0 ts (send_text-IsRecovering s t h)

pub arm_heartbeat-IsRecovering : (s : WsSession) → IsRecovering s → IsRecovering (arm_heartbeat s)
unfolding arm_heartbeat IsRecovering IsTimed
arm_heartbeat-IsRecovering s h = (
  (
    λ ne.
        let e = h.0.0 ne in
        (
          e.0,
          put_timer-other s.timers s.next_timer_id s.reconnect_timer _
                (λ same. omega (arith, h.0.1, same))
              ∙ e.1,
        ),
    omega (arith, h.0.1),
    put_timer-IsBacked s.options s.timers s.next_timer_id _ h.0.2
        (λ d e. absurd (heartbeat-ne-reconnect e)),
    h.0.3,
    h.0.4,
    h.0.5,
  ),
  h.1,
)
  where
    heartbeat-ne-reconnect :
        {a b : ℕ} → ¬ (◌≡◌ {A = Option Timer} (some (heartbeat a)) (some (reconnect b)))
    heartbeat-ne-reconnect e = cc

pub on_attempt-IsRecovering :
    (s : WsSession) (a : Attempt) → IsTimed s → IsRecovering (on_attempt s a)
unfolding IsRecovering IsTimed on_attempt is_live
on_attempt-IsRecovering s begun h = (h, λ r l. absurd (cc l))
on_attempt-IsRecovering s bad_url h =
    IsScheduled-IsRecovering _ (schedule_reconnect-IsScheduled s h).0
on_attempt-IsRecovering s no_route h =
    IsScheduled-IsRecovering _ (schedule_reconnect-IsScheduled (record s { socket = closed }) h).0

pub connect-IsRecovering : (s : WsSession) → IsTimed s → IsRecovering (connect s)
unfolding connect IsTimed
connect-IsRecovering s h =
    on_attempt-IsRecovering (record s { attempts = s.attempts + 1 }) (s.network.attempt s.attempts)
      h

-- ===== src/Net/WsSession/Telling.antt =====
-- A text that is sent is told to the venue, or the connection is over.
use hyperliquid_cpp.Base.{
  ℕ, ◌+◌, ◌≡◌, refl, ap, ◌∙◌, Bool, true, false, ◌||◌, not, List, [], ◌∷◌, ◌==◌, if_cases, codes,
}
use hyperliquid_cpp.Net.WsSession.{
  Delivery, kept, refused, lost, Socket, closed, Text, session_closed, WsSession, is_open, report,
  disarm_reconnect, disarm_heartbeat, disarm, schedule_reconnect, on_ws_closed, dropped, deliver,
  send_text, send_all,
}
use hyperliquid_cpp.Net.WsSession.Venue.{after_text, venue, venue-append}

-- The socket, the texts and the subscriptions: what the other parts of a session leave alone.
unfoldable pub outline : WsSession → Socket × List Text × List (List ℕ)
outline s = (s.socket, s.told, s.subscriptions)

pub outline-disarm : (s : WsSession) → outline (disarm s) ≡ outline s
unfolding outline disarm disarm_heartbeat disarm_reconnect
outline-disarm s =
    if_cases (λ s'. outline s' ≡ outline (disarm_reconnect s))
      ((disarm_reconnect s).heartbeat_timer == 0) (λ t. refl) (λ t. refl)
    ∙ if_cases (λ s'. outline s' ≡ outline s) (s.reconnect_timer == 0) (λ t. refl) (λ t. refl)

pub outline-schedule : (s : WsSession) → outline (schedule_reconnect s) ≡ outline s
unfolding outline schedule_reconnect
outline-schedule s =
    if_cases (λ s'. outline s' ≡ outline s) (not s.running || not (s.reconnect_timer == 0))
      (λ t. refl) (λ t. refl)

pub outline-closed : (s : WsSession) (reason : List ℕ) → outline (on_ws_closed s reason) ≡ outline s
unfolding on_ws_closed report outline
outline-closed s reason =
    outline-schedule (report (disarm s) (session_closed reason)) ∙ outline-disarm s

-- The venue knows these subscriptions, if the session is connected.
unfoldable pub Knows : WsSession → List (List ℕ) → Type 0
Knows s known = is_open s.socket ≡ true → venue [] s.told ≡ known

-- The session is not connected, and has these subscriptions.
unfoldable pub IsDown : WsSession → List (List ℕ) → Type 0
IsDown s subscriptions = is_open s.socket ≡ false × s.subscriptions ≡ subscriptions

pub IsDown-Knows : (s : WsSession) (subs known : List (List ℕ)) → IsDown s subs → Knows s known
unfolding IsDown Knows
IsDown-Knows s subs known h o = absurd (cc (h.0, o))

pub on_ws_closed-IsDown :
    (s : WsSession) (reason : List ℕ) (subs : List (List ℕ))
    → IsDown s subs
    → IsDown (on_ws_closed s reason) subs
unfolding IsDown outline
on_ws_closed-IsDown s reason subs h = (
  ap (λ (v : Socket × List Text × List (List ℕ)). is_open v.0) (outline-closed s reason) ∙ h.0,
  ap (λ (v : Socket × List Text × List (List ℕ)). v.2) (outline-closed s reason) ∙ h.1,
)

pub dropped-IsDown : (s : WsSession) (reason : List ℕ) → IsDown (dropped s reason) s.subscriptions
unfolding dropped IsDown is_open
dropped-IsDown s reason =
    on_ws_closed-IsDown (record s { socket = closed }) reason s.subscriptions (refl, refl)

pub schedule-IsDown :
    (s : WsSession) (subs : List (List ℕ)) → IsDown s subs → IsDown (schedule_reconnect s) subs
unfolding IsDown outline
schedule-IsDown s subs h = (
  ap (λ (v : Socket × List Text × List (List ℕ)). is_open v.0) (outline-schedule s) ∙ h.0,
  ap (λ (v : Socket × List Text × List (List ℕ)). v.2) (outline-schedule s) ∙ h.1,
)

pub disarm-IsDown : (s : WsSession) (subs : List (List ℕ)) → IsDown s subs → IsDown (disarm s) subs
unfolding IsDown outline
disarm-IsDown s subs h = (
  ap (λ (v : Socket × List Text × List (List ℕ)). is_open v.0) (outline-disarm s) ∙ h.0,
  ap (λ (v : Socket × List Text × List (List ℕ)). v.2) (outline-disarm s) ∙ h.1,
)

-- A text is told, or the socket is closed; the subscriptions stay.
unfoldable pub Tells : WsSession → List (List ℕ) → List (List ℕ) → Type 0
Tells s known subs = Knows s known × s.subscriptions ≡ subs

pub IsDown-Tells : (s : WsSession) (subs known : List (List ℕ)) → IsDown s subs → Tells s known subs
unfolding Tells IsDown
IsDown-Tells s subs known h = (IsDown-Knows s subs known h, h.1)

pub deliver-Tells :
    (s : WsSession) (t : Text) (d : Delivery) (known : List (List ℕ))
    → is_open s.socket ≡ true
    → Knows s known
    → Tells (deliver s t d).0 (after_text known t) s.subscriptions
unfolding deliver Tells Knows IsDown is_open venue
deliver-Tells s t kept known o h =
    (λ u. venue-append [] s.told (t ∷ []) ∙ ap (λ k. after_text k t) (h u), refl)
deliver-Tells s t refused known o h =
    IsDown-Tells (dropped (record s { sends = s.sends + 1 }) (codes "send")) s.subscriptions
      (after_text known t) (dropped-IsDown (record s { sends = s.sends + 1 }) (codes "send"))
deliver-Tells s t lost known o h =
    IsDown-Tells (dropped (record s { sends = s.sends + 1 }) (codes "send")) s.subscriptions
      (after_text known t) (dropped-IsDown (record s { sends = s.sends + 1 }) (codes "send"))

pub send_text-Tells :
    (s : WsSession) (t : Text) (known : List (List ℕ))
    → Knows s known
    → Tells (send_text s t).0 (after_text known t) s.subscriptions
unfolding send_text IsDown
send_text-Tells s t known h =
    if_cases (λ (r : WsSession × Bool). Tells r.0 (after_text known t) s.subscriptions)
      (is_open s.socket) (λ o. deliver-Tells s t _ known o h)
      (λ o. IsDown-Tells s s.subscriptions _ (o, refl))

pub send_all-Tells :
    (s : WsSession) (ts : List Text) (known subs : List (List ℕ))
    → Tells s known subs
    → Tells (send_all s ts) (venue known ts) subs
unfolding send_all venue Tells
send_all-Tells s [] known subs h = h
send_all-Tells s (t ∷ ts) known subs h =
    let one = send_text-Tells s t known h.0 in
    send_all-Tells (send_text s t).0 ts (after_text known t) subs (one.0, one.1 ∙ h.1)

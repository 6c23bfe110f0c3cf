-- ===== src/Net/WsSession/Told/Calls.antt =====
-- The calls of the user keep the venue told of the subscriptions.
use mathlib.Core.Path.{subst}
use hyperliquid_cpp.Base.{
  ℕ, ◌+◌, ◌≡◌, refl, sym, ap, ◌∙◌, Bool, true, false, not, List, [], ◌∷◌, ◌++◌, map, if◌then◌else◌,
  if_cases, codes,
}
use hyperliquid_cpp.Net.WsSession.{
  Delivery, kept, refused, lost, Attempt, begun, bad_url, no_route, Socket, connecting, closed,
  Text, subscribe_text, unsubscribe_text, WsSession, is_open, disarm, schedule_reconnect, send_text,
  send_all,
}
use hyperliquid_cpp.Net.WsSession.Steps.{
  has, erase, on_attempt, connect, say_goodbye, close_socket, start, stop, subscribe, unsubscribe,
  clear_subscriptions,
}
use hyperliquid_cpp.Net.WsSession.Venue.{
  after_text, venue, IsDistinct, IsDistinct-append, IsDistinct-erase, venue-unsubscribe,
}
use hyperliquid_cpp.Net.WsSession.Telling.{
  outline, outline-disarm, outline-schedule, Knows, IsDown, dropped-IsDown, schedule-IsDown, Tells,
  IsDown-Tells, send_text-Tells, send_all-Tells,
}

-- The venue has been told of exactly the subscriptions, while the session is connected.
unfoldable pub IsTold : WsSession → Type 0
IsTold s = IsDistinct s.subscriptions × Knows s s.subscriptions

pub Tells-IsTold :
    (s : WsSession) (subs : List (List ℕ)) → IsDistinct subs → Tells s subs subs → IsTold s
unfolding IsTold Tells Knows
Tells-IsTold s subs d h = (subst IsDistinct (sym h.1) d, λ o. h.0 o ∙ sym h.1)

pub IsDown-IsTold :
    (s : WsSession) (subs : List (List ℕ)) → IsDistinct subs → IsDown s subs → IsTold s
IsDown-IsTold s subs d h = Tells-IsTold s subs d (IsDown-Tells s subs subs h)

pub same_outline-IsTold : (s s' : WsSession) → outline s' ≡ outline s → IsTold s → IsTold s'
unfolding IsTold Knows outline
same_outline-IsTold s s' e h =
    subst
      (λ (v : Socket × List Text × List (List ℕ)).
        IsDistinct v.2 × (is_open v.0 ≡ true → venue [] v.1 ≡ v.2))
      (sym e) h

pub on_attempt-IsTold : (s : WsSession) (a : Attempt) → IsTold s → IsTold (on_attempt s a)
unfolding on_attempt IsTold IsDown is_open
on_attempt-IsTold s begun h =
    IsDown-IsTold (record s { socket = connecting }) s.subscriptions h.0 (refl, refl)
on_attempt-IsTold s bad_url h = same_outline-IsTold s (schedule_reconnect s) (outline-schedule s) h
on_attempt-IsTold s no_route h =
    IsDown-IsTold (schedule_reconnect (record s { socket = closed })) s.subscriptions h.0
      (schedule-IsDown (record s { socket = closed }) s.subscriptions (refl, refl))

pub connect-IsTold : (s : WsSession) → IsTold s → IsTold (connect s)
unfolding connect IsTold Knows
connect-IsTold s h =
    on_attempt-IsTold (record s { attempts = s.attempts + 1 }) (s.network.attempt s.attempts) h

pub say_goodbye_subscriptions :
    (s : WsSession) (d : Delivery) → (say_goodbye s d).subscriptions ≡ s.subscriptions
unfolding say_goodbye IsDown
say_goodbye_subscriptions s kept = refl
say_goodbye_subscriptions s refused =
    (dropped-IsDown (record s { sends = s.sends + 1 }) (codes "send")).1
say_goodbye_subscriptions s lost =
    (dropped-IsDown (record s { sends = s.sends + 1 }) (codes "send")).1

pub close_socket-IsDown : (s : WsSession) → IsDown (close_socket s) s.subscriptions
unfolding close_socket IsDown is_open
close_socket-IsDown s =
    if_cases (λ s'. IsDown (record s' { socket = closed }) s.subscriptions) (is_open s.socket)
      (λ t. (refl, say_goodbye_subscriptions s _)) (λ t. (refl, refl))

pub start-IsTold : (s : WsSession) → IsTold s → IsTold (start s)
unfolding start IsTold Knows
start-IsTold s h =
    if_cases IsTold s.running (λ t. h)
      (λ t.
        connect-IsTold
          (record s { running = true; next_delay_ms = s.options.reconnect_min_delay_ms }) h)

pub stop-IsTold : (s : WsSession) → IsTold s → IsTold (stop s)
unfolding stop IsTold outline
stop-IsTold s h =
    IsDown-IsTold (stop s) (disarm (record s { running = false })).subscriptions
      (subst IsDistinct
        (sym (
          ap (λ (v : Socket × List Text × List (List ℕ)). v.2)
            (outline-disarm (record s { running = false }))))
        h.0)
      (close_socket-IsDown (disarm (record s { running = false })))

pub subscribe-IsTold : (s : WsSession) (json : List ℕ) → IsTold s → IsTold (subscribe s json)
unfolding subscribe IsTold Knows Tells after_text IsDown
subscribe-IsTold s json h =
    if_cases IsTold (has json s.subscriptions) (λ t. h)
      (λ new.
        if_cases (λ s'. IsTold (record s' { subscriptions = s'.subscriptions ++ (json ∷ []) }))
          (is_open s.socket)
          (λ o.
            let a = send_text-Tells s (subscribe_text json) s.subscriptions h.1 in
            let d = IsDistinct-append s.subscriptions json h.0 new in
            (
              subst (λ subs. IsDistinct (subs ++ (json ∷ []))) (sym a.1) d,
              λ u.
                  a.0 u
                  ∙ ap (λ (b : Bool). if b then s.subscriptions else s.subscriptions ++ (json ∷ []))
                      new
                  ∙ ap (λ subs. subs ++ (json ∷ [])) (sym a.1),
            ))
          (λ down. (IsDistinct-append s.subscriptions json h.0 new, λ u. absurd (cc (down, u)))))

pub unsubscribe-IsTold : (s : WsSession) (json : List ℕ) → IsTold s → IsTold (unsubscribe s json)
unfolding unsubscribe IsTold Knows Tells after_text
unsubscribe-IsTold s json h =
    if_cases IsTold (not (has json s.subscriptions)) (λ t. h)
      (λ known.
        if_cases (λ s'. IsTold (record s' { subscriptions = erase json s'.subscriptions }))
          (is_open s.socket)
          (λ o.
            let a = send_text-Tells s (unsubscribe_text json) s.subscriptions h.1 in
            (
              subst (λ subs. IsDistinct (erase json subs)) (sym a.1)
                  (IsDistinct-erase json s.subscriptions h.0),
              λ u. a.0 u ∙ ap (erase json) (sym a.1),
            ))
          (λ down. (IsDistinct-erase json s.subscriptions h.0, λ u. absurd (cc (down, u)))))

pub clear-IsTold : (s : WsSession) → IsTold s → IsTold (clear_subscriptions s)
unfolding clear_subscriptions IsTold Knows Tells IsDistinct
clear-IsTold s h =
    if_cases IsTold (is_open s.socket)
      (λ o.
        Tells-IsTold
          (send_all (record s { subscriptions = [] }) (map unsubscribe_text s.subscriptions)) [] tt
          (subst
            (λ known.
              Tells
                (send_all (record s { subscriptions = [] }) (map unsubscribe_text s.subscriptions))
                known [])
            (venue-unsubscribe s.subscriptions)
            (send_all-Tells (record s { subscriptions = [] }) (map unsubscribe_text s.subscriptions)
              s.subscriptions [] (h.1, refl))))
      (λ down. (tt, λ u. absurd (cc (down, u))))

pub send-IsTold :
    (s : WsSession) (t : Text)
    → after_text s.subscriptions t ≡ s.subscriptions
    → IsTold s
    → IsTold (send_text s t).0
unfolding IsTold
send-IsTold s t same h = Tells-IsTold (send_text s t).0 s.subscriptions h.0 (
    subst (λ known. Tells (send_text s t).0 known s.subscriptions) same
      (send_text-Tells s t s.subscriptions h.1))

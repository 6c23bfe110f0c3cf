-- ===== src/Net/WsSession/Timers/Scheduling.antt =====
-- A close leaves a session that runs with a reconnect timer.
use hyperliquid_cpp.Base.{
  ℕ, ◌+◌, ◌*◌, ◌≤◌, ◌<◌, min, ◌≡◌, refl, ◌∙◌, ◌≢◌, inl, inr, true, false, ◌||◌, not, Option, none,
  some, List, arith, ◌==◌, Bool-cases, if_cases,
}
use hyperliquid_cpp.Net.WsSession.{
  WsSessionOptions, Timer, reconnect, session_closed, WsSession, is_live, put_timer, report,
  disarm_reconnect, disarm_heartbeat, disarm, schedule_reconnect, on_ws_closed,
}

-- Timers of the loop whose delay stands between the least and the greatest.
unfoldable pub IsBacked : WsSessionOptions → (ℕ → Option Timer) → Type 0
IsBacked o timers =
    (id delay : ℕ)
    → timers id ≡ some (reconnect delay)
    → o.reconnect_min_delay_ms ≤ delay × delay ≤ o.reconnect_max_delay_ms

-- A reconnect timer that the session knows is in the loop, and all delays are within the bounds.
unfoldable pub IsTimed : WsSession → Type 0
IsTimed s =
    (s.reconnect_timer ≢ 0 → ((delay : ℕ) × s.timers s.reconnect_timer ≡ some (reconnect delay)))
    × s.reconnect_timer < s.next_timer_id
    × IsBacked s.options s.timers
    × s.options.reconnect_min_delay_ms ≤ s.next_delay_ms
    × s.next_delay_ms ≤ s.options.reconnect_max_delay_ms
    × s.options.reconnect_min_delay_ms ≤ s.options.reconnect_max_delay_ms

-- A session that runs has a reconnect timer.
unfoldable pub IsScheduled : WsSession → Type 0
IsScheduled s = IsTimed s × (s.running ≡ true → s.reconnect_timer ≢ 0)

-- A session that runs has a reconnect timer or a socket on its way.
unfoldable pub IsRecovering : WsSession → Type 0
IsRecovering s = IsTimed s × (s.running ≡ true → is_live s.socket ≡ false → s.reconnect_timer ≢ 0)

pub IsScheduled-IsRecovering : (s : WsSession) → IsScheduled s → IsRecovering s
unfolding IsScheduled IsRecovering
IsScheduled-IsRecovering s h = (h.0, λ r l. h.1 r)

pub put_timer-same :
    (timers : ℕ → Option Timer) (id : ℕ) (t : Option Timer) → put_timer timers id t id ≡ t
unfolding put_timer
put_timer-same timers id t = let e : (id == id) ≡ true = ground arith in rw e refl

pub put_timer-other :
    (timers : ℕ → Option Timer) (id other : ℕ) (t : Option Timer)
    → other ≢ id
    → put_timer timers id t other ≡ timers other
unfolding put_timer
put_timer-other timers id other t ne = let e : (other == id) ≡ false = ground arith in rw e refl

-- A timer is put in or taken out within the bounds.
pub put_timer-IsBacked :
    (o : WsSessionOptions) (timers : ℕ → Option Timer) (id : ℕ) (t : Option Timer)
    → IsBacked o timers
    → ((delay : ℕ)
        → t ≡ some (reconnect delay)
        → o.reconnect_min_delay_ms ≤ delay × delay ≤ o.reconnect_max_delay_ms)
    → IsBacked o (put_timer timers id t)
unfolding IsBacked put_timer
put_timer-IsBacked o timers id t all one other delay = elim (Bool-cases (other == id)) [
  | inl same ↦ rw same (one delay)
  | inr other_id ↦ rw other_id (all other delay)
]

pub none-ne-some : {t : Timer} → ¬ (◌≡◌ {A = Option Timer} none (some t))
none-ne-some h = cc

pub removed-IsTimed :
    (s : WsSession) (id : ℕ)
    → IsTimed s
    → IsTimed (record s { timers = put_timer s.timers id none; reconnect_timer = 0 })
unfolding IsTimed
removed-IsTimed s id h = (
  λ ne. absurd (ne refl),
  omega (arith, h.1),
  put_timer-IsBacked s.options s.timers id none h.2 (λ d e. absurd (none-ne-some e)),
  h.3,
  h.4,
  h.5,
)

pub cleared-IsTimed :
    (s : WsSession) (id : ℕ)
    → IsTimed s
    → s.reconnect_timer ≡ 0
    → IsTimed (record s { timers = put_timer s.timers id none; heartbeat_timer = 0 })
unfolding IsTimed
cleared-IsTimed s id h e = (
  λ ne. absurd (ne e),
  h.1,
  put_timer-IsBacked s.options s.timers id none h.2 (λ d e. absurd (none-ne-some e)),
  h.3,
  h.4,
  h.5,
)

pub disarm_reconnect-IsTimed :
    (s : WsSession)
    → IsTimed s
    → IsTimed (disarm_reconnect s)
      × (disarm_reconnect s).reconnect_timer ≡ 0
      × (disarm_reconnect s).running ≡ s.running
unfolding disarm_reconnect
disarm_reconnect-IsTimed s h = elim (Bool-cases (s.reconnect_timer == 0)) [
  | inl t ↦ rw t (h, ground arith, refl)
  | inr t ↦ rw t (removed-IsTimed s s.reconnect_timer h, refl, refl)
]

pub disarm_heartbeat-IsTimed :
    (s : WsSession)
    → IsTimed s
    → s.reconnect_timer ≡ 0
    → IsTimed (disarm_heartbeat s) × (disarm_heartbeat s).running ≡ s.running
unfolding disarm_heartbeat
disarm_heartbeat-IsTimed s h e = elim (Bool-cases (s.heartbeat_timer == 0)) [
  | inl t ↦ rw t (h, refl)
  | inr t ↦ rw t (cleared-IsTimed s s.heartbeat_timer h e, refl)
]

pub disarm-IsTimed :
    (s : WsSession) → IsTimed s → IsTimed (disarm s) × (disarm s).running ≡ s.running
unfolding disarm
disarm-IsTimed s h =
    let a = disarm_reconnect-IsTimed s h in
    let b = disarm_heartbeat-IsTimed (disarm_reconnect s) a.0 a.1 in (b.0, b.1 ∙ a.2)

pub armed-IsTimed :
    (s : WsSession)
    → IsTimed s
    → IsTimed (record s {
      next_delay_ms = min (s.next_delay_ms * 2) s.options.reconnect_max_delay_ms;
      reconnect_timer = s.next_timer_id;
      timers = put_timer s.timers s.next_timer_id (some (reconnect s.next_delay_ms));
      next_timer_id = s.next_timer_id + 1;
    })
unfolding IsTimed
armed-IsTimed s h = (
  λ ne.
      (s.next_delay_ms, put_timer-same s.timers s.next_timer_id (some (reconnect s.next_delay_ms))),
  omega arith,
  put_timer-IsBacked s.options s.timers s.next_timer_id (some (reconnect s.next_delay_ms)) h.2
      (λ d e. within d (delay_of e)),
  omega (arith, h.3, h.5),
  omega arith,
  h.5,
)
  where
    delay_of : {a b : ℕ} → ◌≡◌ {A = Option Timer} (some (reconnect a)) (some (reconnect b)) → a ≡ b
    delay_of e = cc

    within :
        (d : ℕ)
        → s.next_delay_ms ≡ d
        → s.options.reconnect_min_delay_ms ≤ d × d ≤ s.options.reconnect_max_delay_ms
    within d e = (omega (arith, h.3, e), omega (arith, h.4, e))

pub has_timer :
    (s : WsSession)
    → (not s.running || not (s.reconnect_timer == 0)) ≡ true
    → s.running ≡ true
    → s.reconnect_timer ≢ 0
has_timer s t r e = ground arith

pub later_timer : (s : WsSession) → IsTimed s → s.next_timer_id ≢ 0
unfolding IsTimed
later_timer s h e = omega (arith, h.1, e)

pub schedule_reconnect-IsScheduled :
    (s : WsSession)
    → IsTimed s
    → IsScheduled (schedule_reconnect s) × (schedule_reconnect s).running ≡ s.running
unfolding schedule_reconnect IsScheduled
schedule_reconnect-IsScheduled s h =
    if_cases (λ s'. IsScheduled s' × s'.running ≡ s.running)
      (not s.running || not (s.reconnect_timer == 0)) (λ t. ((h, has_timer s t), refl))
      (λ t. ((armed-IsTimed s h, λ r e. later_timer s h e), refl))

pub on_ws_closed-IsScheduled :
    (s : WsSession) (reason : List ℕ)
    → IsTimed s
    → IsScheduled (on_ws_closed s reason) × (on_ws_closed s reason).running ≡ s.running
unfolding on_ws_closed report IsTimed
on_ws_closed-IsScheduled s reason h =
    let a = disarm-IsTimed s h in
    let b = schedule_reconnect-IsScheduled (report (disarm s) (session_closed reason)) a.0 in
    (b.0, b.1 ∙ a.1)

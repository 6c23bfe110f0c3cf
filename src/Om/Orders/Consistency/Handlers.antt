-- ===== src/Om/Orders/Consistency/Handlers.antt =====
-- src/om/ExchangeClient.cpp: the table and its index under the messages of the private streams.
use hyperliquid_cpp.Base.{
  ℕ, ◌≡◌, Bool, ◌&&◌, not, some, List, [], ◌∷◌, ◌==◌, ltb, if_cases, option_cases, ◌++◌, length,
}
use hyperliquid_cpp.Core.Hex.{Cloid}
use hyperliquid_cpp.Om.Orders.{
  Tracked, OrderUpdateMsg, Fill, UserFillsMsg, Client, max_remembered_tids,
}
use hyperliquid_cpp.Om.Orders.Table.{find, find_by_oid, Held, hold, retire_oid, set_oid}
use hyperliquid_cpp.Om.Orders.Streams.{
  known, cloid_or_external, track_external, may_be_live, is_canceled_status, contains,
  on_generation, on_status, on_held, on_order_update, on_order_updates, forget, remember,
  move_position, fill_order, on_new_fill, on_fill, fill_loop, on_user_fills, on_non_user_cancel,
  on_non_user_cancels,
}
use hyperliquid_cpp.Om.Orders.Consistency.{
  IsConsistent, IsFit, hold-IsFit, track-IsFit, set_oid-IsFit, store-IsConsistent,
  emit-IsConsistent,
}
use hyperliquid_cpp.Om.Orders.Consistency.Found.{
  OnSome, OnSome-none, OnSome-some, find_by_oid-found, known-found,
}
use hyperliquid_cpp.Om.Orders.Consistency.Moves.{
  IsFitting, apply_venue_status-IsFitting, add_fill-IsFitting,
}

-- A skipped update leaves the entry, any other moves it to the update's generation.
on_generation-OnSome :
    (orders : List (Cloid × Tracked)) (key : Cloid) (h : Held) (u : OrderUpdateMsg)
    → IsFit orders key h
    → OnSome (IsFit orders key) (on_generation h u)
unfolding on_generation retire_oid
on_generation-OnSome orders key h u fit =
    let o = h.tracked.order in
    let P = IsFit orders key in
    let moved : (t : Tracked)
        → IsFitting orders key h.index t
        → OnSome P (some (set_oid (record h { tracked = t }) u.oid)) =
      λ t k. OnSome-some P _ (set_oid-IsFit orders key (record h { tracked = t }) u.oid k) in
    if_cases (OnSome P) (not (u.oid == 0) && not (o.oid == 0) && not (u.oid == o.oid))
      (λ e.
        if_cases (OnSome P) (ltb u.oid o.oid) (λ e. OnSome-none P)
          (λ e.
            if_cases (OnSome P) (contains h.tracked.retired_oids u.oid) (λ e. OnSome-none P)
              (λ e.
                if_cases (OnSome P) o.modify_pending
                  (λ e.
                    if_cases (OnSome P) (not (may_be_live u.status)) (λ e. OnSome-none P)
                      (λ e. moved (retire_oid h.tracked o.oid) fit))
                  (λ e. moved h.tracked fit))))
      (λ e.
        if_cases (OnSome P) (not (u.oid == 0) && (o.oid == 0)) (λ e. moved h.tracked fit)
          (λ e. OnSome-some P h fit))

on_generation-IsFit :
    (orders : List (Cloid × Tracked)) (key : Cloid) (h : Held) (u : OrderUpdateMsg) (g : Held)
    → IsFit orders key h
    → on_generation h u ≡ some g
    → IsFit orders key g
unfolding OnSome
on_generation-IsFit orders key h u g fit e = on_generation-OnSome orders key h u fit g e

on_status-IsConsistent :
    (s : Client) (key : Cloid) (h : Held) (u : OrderUpdateMsg)
    → IsConsistent s
    → IsFit s.orders key h
    → IsConsistent (on_status s key h u)
unfolding on_status
on_status-IsConsistent s key h u ok fit =
    if_cases IsConsistent
      (h.tracked.order.modify_pending
        && (u.oid == h.tracked.order.oid)
        && is_canceled_status u.status)
      (λ e. store-IsConsistent s key _ ok fit)
      (λ e.
        emit-IsConsistent s key _ ok
          (apply_venue_status-IsFitting s.orders key h.index h.tracked _ _ _ _ fit))

on_held-IsConsistent :
    (s : Client) (key : Cloid) (h : Held) (u : OrderUpdateMsg)
    → IsConsistent s
    → IsFit s.orders key h
    → IsConsistent (on_held s key h u)
unfolding on_held
on_held-IsConsistent s key h u ok fit =
    option_cases IsConsistent (on_generation h u) (λ e. store-IsConsistent s key h ok fit)
      (λ g e. on_status-IsConsistent s key g u ok (on_generation-IsFit s.orders key h u g fit e))

pub on_order_update-IsConsistent :
    (s : Client) (u : OrderUpdateMsg) → IsConsistent s → IsConsistent (on_order_update s u)
unfolding on_order_update track_external
on_order_update-IsConsistent s u ok =
    option_cases IsConsistent (known s u.cloid u.oid)
      (λ e.
        let key = cloid_or_external u.cloid u.oid in
        on_held-IsConsistent s key _ u ok
          (set_oid-IsFit s.orders key _ u.oid (track-IsFit s key ok)))
      (λ kt e.
        on_held-IsConsistent s kt.0 (hold s kt.1) u ok
          (hold-IsFit s kt.0 ok kt.1 (known-found s u.cloid u.oid kt e)))

pub on_order_updates-IsConsistent :
    (s : Client) (us : List OrderUpdateMsg) → IsConsistent s → IsConsistent (on_order_updates s us)
unfolding on_order_updates
on_order_updates-IsConsistent s [] ok = ok
on_order_updates-IsConsistent s (u ∷ us) ok =
    on_order_updates-IsConsistent (on_order_update s u) us (on_order_update-IsConsistent s u ok)

forget-IsConsistent : (s : Client) (order : List ℕ) → IsConsistent s → IsConsistent (forget s order)
unfolding forget
forget-IsConsistent s [] ok = ok
forget-IsConsistent s (x ∷ xs) ok = ok

remember-IsConsistent : (s : Client) (tid : ℕ) → IsConsistent s → IsConsistent (remember s tid)
unfolding remember
remember-IsConsistent s tid ok =
    if_cases IsConsistent (ltb max_remembered_tids (length (s.seen_tid_order ++ tid ∷ [])))
      (λ e. forget-IsConsistent _ _ ok) (λ e. ok)

fill_order-IsConsistent :
    (s : Client) (key : Cloid) (t : Tracked) (f : Fill)
    → IsConsistent s
    → find s.orders key ≡ some t
    → IsConsistent (fill_order s key t f)
unfolding fill_order
fill_order-IsConsistent s key t f ok at =
    let fit = hold-IsFit s key ok t at in
    if_cases IsConsistent (not (f.oid == 0) && not (t.order.oid == 0) && not (f.oid == t.order.oid))
      (λ e.
        if_cases IsConsistent (ltb f.oid t.order.oid) (λ old. ok)
          (λ newer. emit-IsConsistent s key _ ok (
            add_fill-IsFitting s.orders key _ _ f
              (set_oid-IsFit s.orders key (hold s t) f.oid fit))))
      (λ e. emit-IsConsistent s key _ ok (add_fill-IsFitting s.orders key _ t f fit))

on_new_fill-IsConsistent : (s : Client) (f : Fill) → IsConsistent s → IsConsistent (on_new_fill s f)
unfolding on_new_fill move_position
on_new_fill-IsConsistent s f ok =
    option_cases IsConsistent (known s f.cloid f.oid) (λ e. ok)
      (λ kt e. fill_order-IsConsistent _ kt.0 kt.1 f ok (known-found s f.cloid f.oid kt e))

pub on_fill-IsConsistent :
    (historical : Bool) (s : Client) (f : Fill)
    → IsConsistent s
    → IsConsistent (on_fill historical s f)
unfolding on_fill
on_fill-IsConsistent historical s f ok =
    if_cases IsConsistent (contains s.seen_tids f.tid) (λ e. ok)
      (λ e.
        let kept = remember-IsConsistent s f.tid ok in
        if_cases IsConsistent historical (λ h. kept)
          (λ h. on_new_fill-IsConsistent (remember s f.tid) f kept))

fill_loop-IsConsistent :
    (historical : Bool) (s : Client) (fs : List Fill)
    → IsConsistent s
    → IsConsistent (fill_loop historical s fs)
unfolding fill_loop
fill_loop-IsConsistent historical s [] ok = ok
fill_loop-IsConsistent historical s (f ∷ fs) ok =
    fill_loop-IsConsistent historical (on_fill historical s f) fs
      (on_fill-IsConsistent historical s f ok)

pub on_user_fills-IsConsistent :
    (s : Client) (msg : UserFillsMsg) → IsConsistent s → IsConsistent (on_user_fills s msg)
unfolding on_user_fills
on_user_fills-IsConsistent s msg ok = fill_loop-IsConsistent _ _ msg.fills ok

on_non_user_cancel-IsConsistent :
    (s : Client) (oid : ℕ) → IsConsistent s → IsConsistent (on_non_user_cancel s oid)
unfolding on_non_user_cancel
on_non_user_cancel-IsConsistent s oid ok =
    option_cases IsConsistent (find_by_oid s.orders s.oid_index oid) (λ e. ok)
      (λ kt e. emit-IsConsistent s kt.0 _ ok (
        apply_venue_status-IsFitting s.orders kt.0 _ kt.1 _ _ _ _
          (hold-IsFit s kt.0 ok kt.1 (find_by_oid-found s oid kt e))))

pub on_non_user_cancels-IsConsistent :
    (s : Client) (oids : List ℕ) → IsConsistent s → IsConsistent (on_non_user_cancels s oids)
unfolding on_non_user_cancels
on_non_user_cancels-IsConsistent s [] ok = ok
on_non_user_cancels-IsConsistent s (oid ∷ oids) ok =
    on_non_user_cancels-IsConsistent (on_non_user_cancel s oid) oids
      (on_non_user_cancel-IsConsistent s oid ok)

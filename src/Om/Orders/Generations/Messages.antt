-- ===== src/Om/Orders/Generations/Messages.antt =====
-- src/om/ExchangeClient.cpp: the stages of orders under all messages of the private streams.
use hyperliquid_cpp.Base.{
  ℕ, ◌≤◌, ◌≡◌, ◌≢◌, ◌⊎◌, inl, inr, Bool, false, ◌&&◌, ◌||◌, not, some, List, [], ◌∷◌, ◌==◌, ltb,
  if_cases, arith, option_cases, ◌++◌, length, codes, Bool-cases,
}
use hyperliquid_cpp.Core.Hex.{Cloid}
use hyperliquid_cpp.Om.Orders.{
  OrderState, is_terminal, Tracked, OrderUpdateStatus, OrderUpdateMsg, Fill, UserFillsMsg, Client,
  max_remembered_tids, external_cloid_high, zero_decimal,
}
use hyperliquid_cpp.Om.Orders.Table.{find, find_by_oid, hold, set_oid}
use hyperliquid_cpp.Om.Orders.Lifecycle.{apply_venue_status}
use hyperliquid_cpp.Om.Orders.Streams.{
  known, contains, on_order_update, on_order_updates, forget, remember, move_position, add_fill,
  fill_order, on_new_fill, on_fill, fill_loop, on_user_fills, on_non_user_cancel,
  on_non_user_cancels,
}
use hyperliquid_cpp.Om.Orders.Consistency.Found.{IsStored, find_by_oid-found, known-found}
use hyperliquid_cpp.Om.Orders.Steps.{
  StreamMessage, order_updates, user_fills, non_user_cancels, hear, hear_all,
}
use hyperliquid_cpp.Om.Orders.Generations.{
  IsLater-trans, IsLaterTable, IsLaterClient, IsLaterClient-refl, IsLaterClient-trans, emit-IsLater,
  stored-CanFollow,
}
use hyperliquid_cpp.Om.Orders.Generations.Updates.{
  set_oid-IsLater, apply_venue_status-IsLater, add_fill-IsLater, on_order_update-IsLater,
}

fill_order-IsLater :
    (s : Client) (key : Cloid) (t : Tracked) (f : Fill)
    → IsStored s (key, t)
    → IsLaterClient s (fill_order s key t f)
unfolding fill_order
fill_order-IsLater s key t f at =
    if_cases (IsLaterClient s)
      (not (f.oid == 0) && not (t.order.oid == 0) && not (f.oid == t.order.oid))
      (λ e.
        if_cases (IsLaterClient s) (ltb f.oid t.order.oid) (λ old. IsLaterClient-refl s)
          (λ newer.
            let g = set_oid (hold s t) f.oid in
            let u = add_fill g.tracked f in
            let moved = set_oid-IsLater (hold s t) f.oid (ground arith) in
            let later = IsLater-trans t g.tracked u moved (add_fill-IsLater g.tracked f) in
            emit-IsLater s key (record g { tracked = u }) (stored-CanFollow s key t u at later)))
      (λ e.
        let u = add_fill t f in
        emit-IsLater s key (record (hold s t) { tracked = u })
          (stored-CanFollow s key t u at (add_fill-IsLater t f)))

on_new_fill-IsLater : (s : Client) (f : Fill) → IsLaterClient s (on_new_fill s f)
unfolding on_new_fill move_position IsLaterClient
on_new_fill-IsLater s f =
    option_cases (IsLaterClient s) (known s f.cloid f.oid) (λ e. IsLaterClient-refl s)
      (λ kt e. fill_order-IsLater _ kt.0 kt.1 f (known-found s f.cloid f.oid kt e))

forget-IsLater : (s : Client) (order : List ℕ) → IsLaterClient s (forget s order)
unfolding forget IsLaterClient
forget-IsLater s [] = IsLaterClient-refl s
forget-IsLater s (x ∷ xs) = IsLaterClient-refl s

remember-IsLater : (s : Client) (tid : ℕ) → IsLaterClient s (remember s tid)
unfolding remember IsLaterClient
remember-IsLater s tid =
    if_cases (IsLaterClient s) (ltb max_remembered_tids (length (s.seen_tid_order ++ tid ∷ [])))
      (λ e.
        forget-IsLater
          (record s {
            seen_tids = tid ∷ s.seen_tids;
            seen_tid_order = s.seen_tid_order ++ tid ∷ [];
          })
          (s.seen_tid_order ++ tid ∷ []))
      (λ e. IsLaterClient-refl s)

on_fill-IsLater :
    (historical : Bool) (s : Client) (f : Fill) → IsLaterClient s (on_fill historical s f)
unfolding on_fill
on_fill-IsLater historical s f =
    if_cases (IsLaterClient s) (contains s.seen_tids f.tid) (λ e. IsLaterClient-refl s)
      (λ e.
        let r = remember s f.tid in
        if_cases (IsLaterClient s) historical (λ e. remember-IsLater s f.tid)
          (λ e.
            IsLaterClient-trans s r (on_new_fill r f) (remember-IsLater s f.tid)
              (on_new_fill-IsLater r f)))

fill_loop-IsLater :
    (historical : Bool) (s : Client) (fs : List Fill) → IsLaterClient s (fill_loop historical s fs)
unfolding fill_loop
fill_loop-IsLater historical s [] = IsLaterClient-refl s
fill_loop-IsLater historical s (f ∷ fs) =
    let t = on_fill historical s f in
    IsLaterClient-trans s t (fill_loop historical t fs) (on_fill-IsLater historical s f)
      (fill_loop-IsLater historical t fs)

on_user_fills-IsLater : (s : Client) (msg : UserFillsMsg) → IsLaterClient s (on_user_fills s msg)
unfolding on_user_fills IsLaterClient
on_user_fills-IsLater s msg =
    fill_loop-IsLater (msg.is_snapshot && not s.fills_snapshot_seen)
      (record s { fills_snapshot_seen = msg.is_snapshot || s.fills_snapshot_seen }) msg.fills

on_order_updates-IsLater :
    (s : Client) (us : List OrderUpdateMsg) → IsLaterClient s (on_order_updates s us)
unfolding on_order_updates
on_order_updates-IsLater s [] = IsLaterClient-refl s
on_order_updates-IsLater s (u ∷ us) =
    let t = on_order_update s u in
    IsLaterClient-trans s t (on_order_updates t us) (on_order_update-IsLater s u)
      (on_order_updates-IsLater t us)

on_non_user_cancel-IsLater : (s : Client) (oid : ℕ) → IsLaterClient s (on_non_user_cancel s oid)
unfolding on_non_user_cancel
on_non_user_cancel-IsLater s oid =
    option_cases (IsLaterClient s) (find_by_oid s.orders s.oid_index oid)
      (λ e. IsLaterClient-refl s)
      (λ kt e.
        let t =
          apply_venue_status kt.1 OrderUpdateStatus.canceled (codes "canceledByVenue") zero_decimal
            zero_decimal in
        emit-IsLater s kt.0 (hold s t) (
          stored-CanFollow s kt.0 kt.1 t (find_by_oid-found s oid kt e)
            (apply_venue_status-IsLater kt.1 _ _ _ _)))

on_non_user_cancels-IsLater :
    (s : Client) (oids : List ℕ) → IsLaterClient s (on_non_user_cancels s oids)
unfolding on_non_user_cancels
on_non_user_cancels-IsLater s [] = IsLaterClient-refl s
on_non_user_cancels-IsLater s (oid ∷ oids) =
    let t = on_non_user_cancel s oid in
    IsLaterClient-trans s t (on_non_user_cancels t oids) (on_non_user_cancel-IsLater s oid)
      (on_non_user_cancels-IsLater t oids)

hear-IsLater : (s : Client) (m : StreamMessage) → IsLaterClient s (hear s m)
unfolding hear
hear-IsLater s (order_updates us) = on_order_updates-IsLater s us
hear-IsLater s (user_fills msg) = on_user_fills-IsLater s msg
hear-IsLater s (non_user_cancels oids) = on_non_user_cancels-IsLater s oids

all-IsLater : (s : Client) (ms : List StreamMessage) → IsLaterClient s (hear_all s ms)
unfolding hear_all
all-IsLater s [] = IsLaterClient-refl s
all-IsLater s (m ∷ ms) =
    IsLaterClient-trans s (hear s m) (hear_all (hear s m) ms) (hear-IsLater s m)
      (all-IsLater (hear s m) ms)

-- Whatever messages the private streams deliver, an order under a cloid of this client's own stays
-- in the table, its oid does not become smaller, and if it was over, its state stays or becomes
-- `Filled`.
pub hear_all-IsLater :
    (s : Client) (ms : List StreamMessage) (cloid : Cloid) (t : Tracked)
    → cloid.high ≢ external_cloid_high
    → find s.orders cloid ≡ some t
    → (u : Tracked) × (find (hear_all s ms).orders cloid ≡ some u)
      × (t.order.oid ≤ u.order.oid)
      × ((is_terminal t.order.state ≡ false)
          ⊎ (u.order.state ≡ t.order.state)
          ⊎ (u.order.state ≡ OrderState.filled))
unfolding IsLaterClient IsLaterTable
hear_all-IsLater s ms cloid t own at =
    let (u, found, later) = all-IsLater s ms cloid t own at in
    (
      u,
      found,
      later.newer,
      elim (Bool-cases (is_terminal t.order.state)) [
        | inl y ↦ inr (later.sticky y)
        | inr n ↦ inl n
      ],
    )

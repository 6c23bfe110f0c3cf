-- ===== src/Om/Orders/Consistency/Entries.antt =====
-- src/om/ExchangeClient.cpp: the table and its index under placing, cancelling and amending.
use hyperliquid_cpp.Base.{ℕ, ◌||◌, Option, List, [], ◌∷◌, ◌==◌, if_cases, option_cases, length}
use hyperliquid_cpp.Core.Decimal.{Decimal}
use hyperliquid_cpp.Core.Hex.{Cloid}
use hyperliquid_cpp.Core.Errors.{Error, Result, success, failure, result_cases}
use hyperliquid_cpp.Om.Actions.Wire.{TriggerSpec, OrderGrouping, BuilderFee}
use hyperliquid_cpp.Om.AssetRegistry.Loading
use hyperliquid_cpp.Om.Orders.{is_terminal, Tracked, Client}
use hyperliquid_cpp.Om.Orders.Table.{find, find_by_oid}
use hyperliquid_cpp.Om.Orders.Entry.{
  OrderRequest, Prepared, check_ready, prepare, register, register_all, place_prepared,
  place_orders, build_wire,
}
use hyperliquid_cpp.Om.Orders.Cancels.{
  cancel_tracked, cancel_order, cancel_by_oid, cancel_all, send_modify, modify,
}
use hyperliquid_cpp.Om.Orders.Consistency.{
  IsConsistent, hold-IsFit, track-IsFit, store-IsConsistent,
}
use hyperliquid_cpp.Om.Orders.Consistency.Found.{IsStored, find_by_oid-found}
use hyperliquid_cpp.Om.Orders.Consistency.Requests.{send_action-IsConsistent}
use hyperliquid_cpp.Om.Orders.Consistency.After.{IsConsistentAfter, after, mark-IsConsistent}
use hyperliquid_cpp.Om.Orders.Consistency.CancelAll.{cancel_all-IsConsistentAfter}

register-IsConsistent : (s : Client) (p : Prepared) → IsConsistent s → IsConsistent (register s p)
unfolding register
register-IsConsistent s p ok = store-IsConsistent s p.cloid _ ok (track-IsFit s p.cloid ok)

register_all-IsConsistent :
    (s : Client) (ps : List Prepared) → IsConsistent s → IsConsistent (register_all s ps)
unfolding register_all
register_all-IsConsistent s [] ok = ok
register_all-IsConsistent s (p ∷ ps) ok =
    register_all-IsConsistent (register s p) ps (register-IsConsistent s p ok)

place_prepared-IsConsistent :
    (s : Client) (g : OrderGrouping) (b : Option BuilderFee) (ps : Result (List Prepared))
    → IsConsistent s
    → IsConsistentAfter (place_prepared s g b ps)
unfolding place_prepared
place_prepared-IsConsistent s g b (failure e) ok = after s _ ok
place_prepared-IsConsistent s g b (success ps) ok =
    after _ _ (send_action-IsConsistent (register_all s ps) _ _ (register_all-IsConsistent s ps ok))

place_orders-IsConsistentAfter :
    (s : Client) (reqs : List OrderRequest) (g : OrderGrouping) (b : Option BuilderFee)
    → IsConsistent s
    → IsConsistentAfter (place_orders s reqs g b)
unfolding place_orders
place_orders-IsConsistentAfter s reqs g b ok =
    option_cases IsConsistentAfter (check_ready s)
      (λ e.
        if_cases IsConsistentAfter (length reqs == 0) (λ e. after s _ ok)
          (λ e. place_prepared-IsConsistent _ g b (prepare s s.cloid_counter reqs).1 ok))
      (λ e at. after s _ ok)

cancel_tracked-IsConsistent :
    (s : Client) (key : Cloid) (t : Tracked)
    → IsConsistent s
    → IsStored s (key, t)
    → IsConsistentAfter (cancel_tracked s key t)
unfolding cancel_tracked
cancel_tracked-IsConsistent s key t ok at =
    let kept = mark-IsConsistent s key t ok at in
    let P = IsConsistentAfter {R = Option Error} in
    if_cases P (is_terminal t.order.state) (λ e. after s _ ok)
      (λ e.
        if_cases P t.order.cancel_pending (λ e. after s _ ok)
          (λ e.
            if_cases P t.order.external
              (λ e.
                if_cases P (t.order.oid == 0) (λ e. after s _ ok)
                  (λ e. after _ _ (send_action-IsConsistent _ _ _ kept)))
              (λ e. after _ _ (send_action-IsConsistent _ _ _ kept))))

cancel_order-IsConsistentAfter :
    (s : Client) (key : Cloid) → IsConsistent s → IsConsistentAfter (cancel_order s key)
unfolding cancel_order
cancel_order-IsConsistentAfter s key ok =
    option_cases IsConsistentAfter (check_ready s)
      (λ e.
        option_cases IsConsistentAfter (find s.orders key) (λ e. after s _ ok)
          (λ t at. cancel_tracked-IsConsistent s key t ok at))
      (λ e at. after s _ ok)

cancel_by_oid-IsConsistentAfter :
    (s : Client) (coin : List ℕ) (oid : ℕ)
    → IsConsistent s
    → IsConsistentAfter (cancel_by_oid s coin oid)
unfolding cancel_by_oid
cancel_by_oid-IsConsistentAfter s coin oid ok =
    option_cases IsConsistentAfter (check_ready s)
      (λ e.
        option_cases IsConsistentAfter (Loading.find coin s.assets) (λ e. after s _ ok)
          (λ info at.
            option_cases IsConsistentAfter (find_by_oid s.orders s.oid_index oid)
              (λ e. after _ _ (send_action-IsConsistent s _ _ ok))
              (λ kt e. after _ _ (
                send_action-IsConsistent _ _ _
                  (mark-IsConsistent s kt.0 kt.1 ok (find_by_oid-found s oid kt e))))))
      (λ e at. after s _ ok)

send_modify-IsConsistent :
    (s : Client) (key : Cloid) (t : Tracked) (px size : Decimal) (trigger : Option TriggerSpec)
    → IsConsistent s
    → IsStored s (key, t)
    → IsConsistentAfter (send_modify s key t px size trigger)
unfolding send_modify
send_modify-IsConsistent s key t px size trigger ok at =
    result_cases IsConsistentAfter (build_wire s _ key) (λ e. after s _ ok)
      (λ wire.
        after _ _ (
          send_action-IsConsistent _ _ _
            (store-IsConsistent s key _ ok (hold-IsFit s key ok t at))))

modify-IsConsistentAfter :
    (s : Client) (key : Cloid) (px size : Decimal) (trigger : Option TriggerSpec)
    → IsConsistent s
    → IsConsistentAfter (modify s key px size trigger)
unfolding modify
modify-IsConsistentAfter s key px size trigger ok =
    option_cases IsConsistentAfter (check_ready s)
      (λ e.
        option_cases IsConsistentAfter (find s.orders key) (λ e. after s _ ok)
          (λ t at.
            let P = IsConsistentAfter {R = Option Error} in
            if_cases P (is_terminal t.order.state || t.order.cancel_pending) (λ e. after s _ ok)
              (λ e.
                if_cases P (t.order.oid == 0) (λ e. after s _ ok)
                  (λ e.
                    if_cases P t.order.modify_pending (λ e. after s _ ok)
                      (λ e. send_modify-IsConsistent s key t px size trigger ok at)))))
      (λ e at. after s _ ok)

module _ (s : Client) (ok : IsConsistent s) where
  pub place_orders-IsConsistent :
      (reqs : List OrderRequest) (g : OrderGrouping) (b : Option BuilderFee)
      → IsConsistent (place_orders s reqs g b).0
  unfolding IsConsistentAfter
  place_orders-IsConsistent reqs g b = place_orders-IsConsistentAfter s reqs g b ok

  pub cancel_order-IsConsistent : (key : Cloid) → IsConsistent (cancel_order s key).0
  unfolding IsConsistentAfter
  cancel_order-IsConsistent key = cancel_order-IsConsistentAfter s key ok

  pub cancel_by_oid-IsConsistent :
      (coin : List ℕ) (oid : ℕ) → IsConsistent (cancel_by_oid s coin oid).0
  unfolding IsConsistentAfter
  cancel_by_oid-IsConsistent coin oid = cancel_by_oid-IsConsistentAfter s coin oid ok

  pub cancel_all-IsConsistent : (coin : List ℕ) → IsConsistent (cancel_all s coin).0
  unfolding IsConsistentAfter
  cancel_all-IsConsistent coin = cancel_all-IsConsistentAfter s coin ok

  pub modify-IsConsistent :
      (key : Cloid) (px size : Decimal) (trigger : Option TriggerSpec)
      → IsConsistent (modify s key px size trigger).0
  unfolding IsConsistentAfter
  modify-IsConsistent key px size trigger = modify-IsConsistentAfter s key px size trigger ok

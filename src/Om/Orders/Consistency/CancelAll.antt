-- ===== src/Om/Orders/Consistency/CancelAll.antt =====
-- src/om/ExchangeClient.cpp: the table and its index under `cancelAll`.
use hyperliquid_cpp.Base.{
  ℕ, Bool, false, ◌&&◌, ◌||◌, not, List, [], ◌∷◌, ◌==◌, if_cases, option_cases, length, suc, zero,
}
use hyperliquid_cpp.Base.Texts.{same_text}
use hyperliquid_cpp.Core.Hex.{Cloid}
use hyperliquid_cpp.Om.Actions.Wire.{CancelByCloidWire, CancelWire}
use hyperliquid_cpp.Om.Orders.{is_terminal, Tracked, Client}
use hyperliquid_cpp.Om.Orders.Table.{find}
use hyperliquid_cpp.Om.Orders.Entry.{check_ready}
use hyperliquid_cpp.Om.Orders.Cancels.{
  Gathered, gather_order, gather_one, gather, send_by_cloid, send_by_oid, cancel_all,
}
use hyperliquid_cpp.Om.Orders.Consistency.{IsConsistent}
use hyperliquid_cpp.Om.Orders.Consistency.Found.{IsStored}
use hyperliquid_cpp.Om.Orders.Consistency.Requests.{send_action-IsConsistent}
use hyperliquid_cpp.Om.Orders.Consistency.After.{IsConsistentAfter, after, mark-IsConsistent}

-- The client that `cancelAll` has marked orders in.
GatheredIsConsistent : Gathered → Type 0
GatheredIsConsistent g = IsConsistent g.client

gather_order-IsConsistent :
    (g : Gathered) (key : Cloid) (t : Tracked)
    → GatheredIsConsistent g
    → IsStored g.client (key, t)
    → GatheredIsConsistent (gather_order g key t)
unfolding gather_order GatheredIsConsistent
gather_order-IsConsistent g key t ok at =
    let kept = mark-IsConsistent g.client key t ok at in
    if_cases GatheredIsConsistent t.order.external
      (λ e. if_cases GatheredIsConsistent (t.order.oid == 0) (λ z. ok) (λ n. kept)) (λ e. kept)

gather-IsConsistent :
    (coin : List ℕ) (g : Gathered) (keys : List Cloid)
    → GatheredIsConsistent g
    → GatheredIsConsistent (gather coin g keys)
unfolding gather gather_one
gather-IsConsistent coin g [] ok = ok
gather-IsConsistent coin g (key ∷ keys) ok = gather-IsConsistent coin (gather_one coin g key) keys (
    option_cases GatheredIsConsistent (find g.client.orders key) (λ e. ok)
      (λ t at.
        if_cases GatheredIsConsistent
          (is_terminal t.order.state
            || t.order.cancel_pending
            || (not (length coin == 0) && not (same_text t.order.coin coin)))
          (λ e. ok) (λ e. gather_order-IsConsistent g key t ok at)))

send_by_cloid-IsConsistent :
    (fuel : ℕ) (fast : Bool) (s : Client) (entries : List (Cloid × CancelByCloidWire))
    → IsConsistent s
    → IsConsistent (send_by_cloid fuel fast s entries)
unfolding send_by_cloid
send_by_cloid-IsConsistent zero fast s entries ok = ok
send_by_cloid-IsConsistent (suc fuel) fast s entries ok =
    if_cases IsConsistent (length entries == 0) (λ e. ok)
      (λ e. send_by_cloid-IsConsistent fuel fast _ _ (send_action-IsConsistent s _ _ ok))

send_by_oid-IsConsistent :
    (fuel : ℕ) (fast : Bool) (s : Client) (entries : List (Cloid × CancelWire))
    → IsConsistent s
    → IsConsistent (send_by_oid fuel fast s entries)
unfolding send_by_oid
send_by_oid-IsConsistent zero fast s entries ok = ok
send_by_oid-IsConsistent (suc fuel) fast s entries ok =
    if_cases IsConsistent (length entries == 0) (λ e. ok)
      (λ e. send_by_oid-IsConsistent fuel fast _ _ (send_action-IsConsistent s _ _ ok))

gathered-IsConsistent :
    (s : Client) (coin : List ℕ) (keys : List Cloid)
    → IsConsistent s
    → IsConsistent
        (gather coin
          (record { client = s; by_cloid = []; by_oid = []; any_trigger = false })
          keys).client
unfolding GatheredIsConsistent
gathered-IsConsistent s coin keys ok =
    gather-IsConsistent coin
      (record { client = s; by_cloid = []; by_oid = []; any_trigger = false }) keys ok

pub cancel_all-IsConsistentAfter :
    (s : Client) (coin : List ℕ) → IsConsistent s → IsConsistentAfter (cancel_all s coin)
unfolding cancel_all
cancel_all-IsConsistentAfter s coin ok =
    option_cases IsConsistentAfter (check_ready s)
      (λ e. after _ _ (
        send_by_oid-IsConsistent _ _ _ _
          (send_by_cloid-IsConsistent _ _ _ _ (gathered-IsConsistent s coin _ ok))))
      (λ e at. after s _ ok)

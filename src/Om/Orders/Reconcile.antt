-- ===== src/Om/Orders/Reconcile.antt =====
-- src/om/ExchangeClient.cpp: the questions to `InfoClient` with what is done with the answers, and the
-- eviction of old orders. The child is the adoption of orders that are listed as open.
mod Adoption
unfoldable pub use Adoption.*
use hyperliquid_cpp.Base.{
  ℕ, ◌+◌, Bool, true, false, ◌&&◌, ◌||◌, not, Option, none, some, List, [], ◌∷◌, map, ◌==◌, ltb,
  if◌then◌else◌, length, codes,
}
use hyperliquid_cpp.Base.Int.{lt_ℤ, ◌-ℤ◌, ◌*ℤ◌, is_neg}
use hyperliquid_cpp.Base.Assoc.{erase_key}
use hyperliquid_cpp.Core.Hex.{Cloid}
use hyperliquid_cpp.Core.Errors.{Result, success, failure}
use hyperliquid_cpp.Om.Actions.Wire.{TriggerSpec, TriggerKind}
use hyperliquid_cpp.Om.Orders.{
  OrderState, is_terminal, Order, Tracked, OrderUpdateStatus, OpenOrder, OrderStatusInfo, Probe,
  by_oid, by_cloid, asked_status, asked_amended, asked_all, retry_in, Client, is_zero, minus,
}
use hyperliquid_cpp.Om.Orders.Table.{
  same_cloid, same_oid, find, find_by_oid, Held, hold, track, recompute_fills, set_oid, store, say,
  emit,
}
use hyperliquid_cpp.Om.Orders.Lifecycle.{is_pending_new, resting_state, apply_venue_status}
use hyperliquid_cpp.Om.Orders.Streams.{cloid_or_external, asset_or}

unfoldable pub probe_for : Cloid → Option Tracked → Probe
probe_for cloid none = by_cloid cloid
probe_for cloid (some t) = if t.order.oid == 0 then by_cloid cloid else by_oid t.order.oid

unfoldable pub reconcile : Client → Cloid → Client
reconcile s cloid =
    say (record s { reconciles = s.reconciles + 1 })
      (asked_status (probe_for cloid (find s.orders cloid)) cloid)

unfoldable pub on_not_found : Client → Cloid → Tracked → Client
on_not_found s cloid t =
    if not (is_pending_new t.order.state)
    then s
    else if ltb t.not_found_probes 3
    then say (store s cloid (hold s (record t { not_found_probes = t.not_found_probes + 1 })))
        (retry_in 1000 cloid)
    else let error =
        if length t.order.last_error == 0
        then codes "order not found on venue"
        else t.order.last_error in
      emit s cloid (
        hold s
          (record t { order = record t.order { state = OrderState.rejected; last_error = error } }))

unfoldable pub was_found : Client → Cloid → Tracked → OrderStatusInfo → Client
was_found s cloid t info =
    let u = record t { not_found_probes = 0 } in
    if not (u.order.oid == 0) && not (info.order.oid == 0) && not (info.order.oid == u.order.oid)
    then store s cloid (hold s u)
    else let g = set_oid (hold s u) info.order.oid in
      emit s cloid (record g {
        tracked =
            apply_venue_status g.tracked info.status info.status_text info.order.limit_px
              info.order.orig_sz;
      })

-- The answer to a question of `reconcile`.
unfoldable pub on_order_status : Client → Cloid → Result OrderStatusInfo → Client
on_order_status s cloid answer = elim (find s.orders cloid) [
  | none ↦ s
  | some t ↦ elim answer [
    | failure e ↦ say s (retry_in 2000 cloid)
    | success info ↦ if info.found then was_found s cloid t info else on_not_found s cloid t
  ]
]

-- The timers of 2 s and of 1 s.
unfoldable pub on_retry : Client → Cloid → Client
on_retry s cloid = elim (find s.orders cloid) [
  | none ↦ s
  | some t ↦ if not (is_terminal t.order.state) && s.started then reconcile s cloid else s
]

unfoldable pub on_not_found_retry : Client → Cloid → Client
on_not_found_retry s cloid = elim (find s.orders cloid) [
  | none ↦ s
  | some t ↦ if is_pending_new t.order.state then reconcile s cloid else s
]

unfoldable pub reconcile_amended : Client → Cloid → Client
reconcile_amended s cloid = say (record s { reconciles = s.reconciles + 1 }) (asked_amended cloid)

unfoldable pub names_cloid : OpenOrder → Cloid → Bool
names_cloid listed cloid = elim listed.cloid [ none ↦ false | some c ↦ same_cloid c cloid ]

unfoldable pub find_listed : (OpenOrder → Bool) → List OpenOrder → Option OpenOrder
find_listed test [] = none
find_listed test (listed ∷ rest) =
    let later = find_listed test rest in if test listed then some listed else later

unfoldable pub on_amended_listing : Client → Cloid → Result (List OpenOrder) → Client
on_amended_listing s cloid answer = elim (find s.orders cloid) [
  | none ↦ s
  | some t ↦ elim answer [
    | failure e ↦ reconcile s cloid
    | success listing ↦ elim (find_listed (λ l. names_cloid l cloid) listing) [
      | none ↦ reconcile s cloid
      | some listed ↦ emit s cloid (settle_listed (hold s t) listed)
    ]
  ]
]

unfoldable pub live_cloids : List (Cloid × Tracked) → List Cloid
live_cloids [] = []
live_cloids ((cloid, t) ∷ rest) =
    let later = live_cloids rest in if is_terminal t.order.state then later else cloid ∷ later

unfoldable pub reconcile_all : Client → Client
reconcile_all s =
    let live = live_cloids s.orders in
    if (length live == 0) && not s.config.adopt_existing_orders
    then s
    else say (record s { reconciles = s.reconciles + 1 }) (asked_all live)

unfoldable pub reconcile_each : Client → List Cloid → Client
reconcile_each s [] = s
reconcile_each s (cloid ∷ cloids) = reconcile_each (reconcile s cloid) cloids

unfoldable pub is_match : Cloid → Tracked → OpenOrder → Bool
is_match cloid t listed =
    names_cloid listed cloid || (not (t.order.oid == 0) && (listed.oid == t.order.oid))

-- The loop over the orders that were live, and those that the listing does not have.
unfoldable pub match_live : Client → List Cloid → List OpenOrder → Client × List Cloid
match_live s [] listing = (s, [])
match_live s (cloid ∷ cloids) listing = elim (find s.orders cloid) [
  | none ↦ match_live s cloids listing
  | some t ↦ elim (is_terminal t.order.state) [
    | true ↦ match_live s cloids listing
    | false ↦ elim (find_listed (is_match cloid t) listing) [
      | none ↦ let (s', unresolved) = match_live s cloids listing in (s', cloid ∷ unresolved)
      | some listed ↦ match_live (emit s cloid (settle_listed (hold s t) listed)) cloids listing
    ]
  ]
]

unfoldable pub on_full_listing : Client → List Cloid → Result (List OpenOrder) → Client
on_full_listing s live (failure e) = reconcile_each s live
on_full_listing s live (success listing) =
    let (s', unresolved) = match_live s live listing in
    let s'' = reconcile_each s' unresolved in
    if s.config.adopt_existing_orders then adopt_from_listing s'' listing else s''

unfoldable pub evict_one : Client → Cloid → Client
evict_one s cloid = elim (find s.orders cloid) [
  | none ↦ s
  | some t ↦
      let cutoff = s.now -ℤ s.config.terminal_order_retention_ms in
      if is_terminal t.order.state && lt_ℤ t.order.updated_ms cutoff
      then record s {
        oid_index =
            if t.order.oid == 0 then s.oid_index else erase_key same_oid s.oid_index t.order.oid;
        orders = erase_key same_cloid s.orders cloid;
      }
      else s
]

unfoldable pub evict_each : Client → List Cloid → Client
evict_each s [] = s
evict_each s (cloid ∷ cloids) = evict_each (evict_one s cloid) cloids

-- The task of the eviction timer, entry by entry.
unfoldable pub evict : Client → Client
evict s = evict_each s (map (λ e. e.0) s.orders)

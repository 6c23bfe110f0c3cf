-- ===== src/Om/Orders/Consistency/Answers.antt =====
-- src/om/ExchangeClient.cpp: the table and its index under adoption and reconciliation.
use hyperliquid_cpp.Base.{
  ◌≡◌, inl, inr, ◌&&◌, not, some, List, [], ◌∷◌, ◌==◌, ltb, if_cases, option_cases, length,
  Bool-cases,
}
use hyperliquid_cpp.Core.Hex.{Cloid}
use hyperliquid_cpp.Core.Errors.{Result, success, failure}
use hyperliquid_cpp.Om.Orders.{is_terminal, Tracked, OpenOrder, OrderStatusInfo, Client}
use hyperliquid_cpp.Om.Orders.Table.{find, find_by_oid, hold, emit}
use hyperliquid_cpp.Om.Orders.Lifecycle.{is_pending_new}
use hyperliquid_cpp.Om.Orders.Streams.{cloid_or_external}
use hyperliquid_cpp.Om.Orders.Reconcile.{
  settle_listed, revive, listed_order, adopted_order, adopt_new, adopt, adopt_from_listing,
  reconcile, on_not_found, was_found, on_order_status, on_retry, on_not_found_retry, names_cloid,
  find_listed, on_amended_listing, live_cloids, reconcile_all, reconcile_each, is_match, match_live,
  on_full_listing,
}
use hyperliquid_cpp.Om.Orders.Consistency.{
  IsConsistent, hold-IsFit, track-IsFit, set_oid-IsFit, store-IsConsistent, emit-IsConsistent,
}
use hyperliquid_cpp.Om.Orders.Consistency.Moves.{
  apply_venue_status-IsFitting, seed_filled-IsFitting, settle_listed-IsFit,
}

module _ (s : Client) (key : Cloid) (ok : IsConsistent s) where
  revive-IsConsistent :
      (t : Tracked) (l : OpenOrder) → find s.orders key ≡ some t → IsConsistent (revive s key t l)
  unfolding revive
  revive-IsConsistent t l at = emit-IsConsistent s key _ ok (
      apply_venue_status-IsFitting s.orders key _ _ _ _ _ _ (
        seed_filled-IsFitting s.orders key _ _ l
          (set_oid-IsFit s.orders key _ l.oid (hold-IsFit s key ok t at))))

  adopt_new-IsConsistent : (l : OpenOrder) → IsConsistent (adopt_new s key l)
  unfolding adopt_new listed_order adopted_order
  adopt_new-IsConsistent l = emit-IsConsistent s key _ ok (
      set_oid-IsFit s.orders key _ l.oid
        (seed_filled-IsFitting s.orders key _ _ l (track-IsFit s key ok)))

  on_not_found-IsConsistent :
      (t : Tracked) → find s.orders key ≡ some t → IsConsistent (on_not_found s key t)
  unfolding on_not_found
  on_not_found-IsConsistent t at =
      let fit = hold-IsFit s key ok t at in
      if_cases IsConsistent (not (is_pending_new t.order.state)) (λ e. ok)
        (λ e.
          if_cases IsConsistent (ltb t.not_found_probes 3) (λ e. store-IsConsistent s key _ ok fit)
            (λ e. emit-IsConsistent s key _ ok fit))

  was_found-IsConsistent :
      (t : Tracked) (info : OrderStatusInfo)
      → find s.orders key ≡ some t
      → IsConsistent (was_found s key t info)
  unfolding was_found
  was_found-IsConsistent t info at =
      let fit = hold-IsFit s key ok t at in
      if_cases IsConsistent
        (not (t.order.oid == 0) && not (info.order.oid == 0) && not (info.order.oid == t.order.oid))
        (λ e. store-IsConsistent s key _ ok fit)
        (λ e. emit-IsConsistent s key _ ok (
          apply_venue_status-IsFitting s.orders key _ _ _ _ _ _ (
            set_oid-IsFit s.orders key (hold s (record t { not_found_probes = 0 })) info.order.oid
              fit)))

  pub on_order_status-IsConsistent :
      (answer : Result OrderStatusInfo) → IsConsistent (on_order_status s key answer)
  unfolding on_order_status
  on_order_status-IsConsistent (failure e) =
      option_cases IsConsistent (find s.orders key) (λ e. ok) (λ t at. ok)
  on_order_status-IsConsistent (success info) =
      option_cases IsConsistent (find s.orders key) (λ e. ok)
        (λ t at.
          if_cases IsConsistent info.found (λ e. was_found-IsConsistent t info at)
            (λ e. on_not_found-IsConsistent t at))

  pub on_retry-IsConsistent : IsConsistent (on_retry s key)
  unfolding on_retry reconcile
  on_retry-IsConsistent =
      option_cases IsConsistent (find s.orders key) (λ e. ok)
        (λ t at.
          if_cases IsConsistent (not (is_terminal t.order.state) && s.started) (λ e. ok) (λ e. ok))

  pub on_not_found_retry-IsConsistent : IsConsistent (on_not_found_retry s key)
  unfolding on_not_found_retry reconcile
  on_not_found_retry-IsConsistent =
      option_cases IsConsistent (find s.orders key) (λ e. ok)
        (λ t at. if_cases IsConsistent (is_pending_new t.order.state) (λ e. ok) (λ e. ok))

  pub settle-IsConsistent :
      (t : Tracked) (l : OpenOrder)
      → find s.orders key ≡ some t
      → IsConsistent (emit s key (settle_listed (hold s t) l))
  settle-IsConsistent t l at =
      emit-IsConsistent s key _ ok
        (settle_listed-IsFit s.orders key (hold s t) l (hold-IsFit s key ok t at))

  pub on_amended_listing-IsConsistent :
      (answer : Result (List OpenOrder)) → IsConsistent (on_amended_listing s key answer)
  unfolding on_amended_listing reconcile
  on_amended_listing-IsConsistent (failure e) =
      option_cases IsConsistent (find s.orders key) (λ e. ok) (λ t at. ok)
  on_amended_listing-IsConsistent (success listing) =
      option_cases IsConsistent (find s.orders key) (λ e. ok)
        (λ t at.
          option_cases IsConsistent (find_listed (λ l. names_cloid l key) listing) (λ e. ok)
            (λ l e. settle-IsConsistent t l at))

pub adopt-IsConsistent : (s : Client) (l : OpenOrder) → IsConsistent s → IsConsistent (adopt s l)
unfolding adopt
adopt-IsConsistent s l ok =
    let key = cloid_or_external l.cloid l.oid in
    option_cases IsConsistent (find s.orders key)
      (λ e.
        option_cases IsConsistent (find_by_oid s.orders s.oid_index l.oid)
          (λ e. adopt_new-IsConsistent s key ok l) (λ other e. ok))
      (λ t at.
        if_cases IsConsistent (is_terminal t.order.state && not (t.order.oid == l.oid))
          (λ e. revive-IsConsistent s key ok t l at) (λ e. ok))

pub adopt_from_listing-IsConsistent :
    (s : Client) (ls : List OpenOrder) → IsConsistent s → IsConsistent (adopt_from_listing s ls)
unfolding adopt_from_listing
adopt_from_listing-IsConsistent s [] ok = ok
adopt_from_listing-IsConsistent s (l ∷ ls) ok =
    adopt_from_listing-IsConsistent (adopt s l) ls (adopt-IsConsistent s l ok)

reconcile_each-IsConsistent :
    (s : Client) (keys : List Cloid) → IsConsistent s → IsConsistent (reconcile_each s keys)
unfolding reconcile_each reconcile
reconcile_each-IsConsistent s [] ok = ok
reconcile_each-IsConsistent s (key ∷ keys) ok =
    reconcile_each-IsConsistent (reconcile s key) keys ok

pub reconcile_all-IsConsistent : (s : Client) → IsConsistent s → IsConsistent (reconcile_all s)
unfolding reconcile_all
reconcile_all-IsConsistent s ok =
    if_cases IsConsistent
      ((length (live_cloids s.orders) == 0) && not s.config.adopt_existing_orders) (λ e. ok)
      (λ e. ok)

abbrev IsConsistentPair : Client × List Cloid → Type 0
IsConsistentPair p = IsConsistent p.0

match_live-IsConsistent :
    (s : Client) (keys : List Cloid) (listing : List OpenOrder)
    → IsConsistent s
    → IsConsistentPair (match_live s keys listing)
unfolding match_live
match_live-IsConsistent s [] listing ok = ok
match_live-IsConsistent s (key ∷ keys) listing ok =
    option_cases IsConsistentPair (find s.orders key)
      (λ e. match_live-IsConsistent s keys listing ok)
      (λ t at. elim (Bool-cases (is_terminal t.order.state)) [
        | inl e ↦ rw e (match_live-IsConsistent s keys listing ok)
        | inr e ↦ rw e (
            option_cases IsConsistentPair (find_listed (is_match key t) listing)
              (λ e. match_live-IsConsistent s keys listing ok)
              (λ l e.
                match_live-IsConsistent (emit s key (settle_listed (hold s t) l)) keys listing
                  (settle-IsConsistent s key ok t l at)))
      ])

pub on_full_listing-IsConsistent :
    (s : Client) (live : List Cloid) (answer : Result (List OpenOrder))
    → IsConsistent s
    → IsConsistent (on_full_listing s live answer)
unfolding on_full_listing
on_full_listing-IsConsistent s live (failure e) ok = reconcile_each-IsConsistent s live ok
on_full_listing-IsConsistent s live (success listing) ok =
    let settled = match_live s live listing in
    let each =
      reconcile_each-IsConsistent settled.0 settled.1 (match_live-IsConsistent s live listing ok) in
    if_cases IsConsistent s.config.adopt_existing_orders
      (λ e. adopt_from_listing-IsConsistent (reconcile_each settled.0 settled.1) listing each)
      (λ e. each)

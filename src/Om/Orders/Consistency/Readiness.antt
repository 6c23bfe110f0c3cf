-- ===== src/Om/Orders/Consistency/Readiness.antt =====
-- src/om/ExchangeClient.cpp: the table and its index under start, stop and the session.
use hyperliquid_cpp.Base.{
  ℕ, true, ◌&&◌, ◌||◌, not, List, [], ◌∷◌, ◌==◌, if_cases, option_cases, length, codes,
}
use hyperliquid_cpp.Base.Assoc.{lookup}
use hyperliquid_cpp.Base.Texts.{same_text}
use hyperliquid_cpp.Core.Decimal.{Decimal}
use hyperliquid_cpp.Core.Errors.{Result, success, failure}
use hyperliquid_cpp.Om.AssetRegistry.{AssetInfo}
use hyperliquid_cpp.Om.Orders.{OpenOrder, Client}
use hyperliquid_cpp.Om.Orders.Results.{complete_action}
use hyperliquid_cpp.Om.Orders.Readiness.{
  may_be_ready, now_ready, maybe_ready, on_adoption_listing, try_emplace, is_spot, seed_spot_loop,
  seed_spot_positions, on_assets, on_spot_balances, emplace_all, on_positions, resubscribe_user,
  start_client, stop_client, session_opens, lost_actions, socket_closed, complete_lost,
  session_closes, on_subscription_response,
}
use hyperliquid_cpp.Om.Orders.Consistency.{IsConsistent}
use hyperliquid_cpp.Om.Orders.Consistency.Answers.{
  adopt_from_listing-IsConsistent, reconcile_all-IsConsistent,
}
use hyperliquid_cpp.Om.Orders.Consistency.Requests.{complete_action-IsConsistent}

pub now_ready-IsConsistent : (s : Client) → IsConsistent s → IsConsistent (now_ready s)
unfolding now_ready
now_ready-IsConsistent s ok =
    if_cases IsConsistent s.was_ready_before
      (λ e. reconcile_all-IsConsistent (record s { ready = true }) ok) (λ e. ok)

pub maybe_ready-IsConsistent : (s : Client) → IsConsistent s → IsConsistent (maybe_ready s)
unfolding maybe_ready
maybe_ready-IsConsistent s ok =
    if_cases IsConsistent (not (may_be_ready s)) (λ e. ok)
      (λ e.
        if_cases IsConsistent
          (not s.was_ready_before && s.config.adopt_existing_orders && not s.orders_adopted)
          (λ e. if_cases IsConsistent s.adoption_in_flight (λ e. ok) (λ e. ok))
          (λ e. now_ready-IsConsistent s ok))

pub on_adoption_listing-IsConsistent :
    (s : Client) (answer : Result (List OpenOrder))
    → IsConsistent s
    → IsConsistent (on_adoption_listing s answer)
unfolding on_adoption_listing
on_adoption_listing-IsConsistent s (failure e) ok = maybe_ready-IsConsistent _ ok
on_adoption_listing-IsConsistent s (success listing) ok =
    maybe_ready-IsConsistent _ (adopt_from_listing-IsConsistent _ listing ok)

try_emplace-IsConsistent :
    (s : Client) (coin : List ℕ) (size : Decimal)
    → IsConsistent s
    → IsConsistent (try_emplace s coin size)
unfolding try_emplace
try_emplace-IsConsistent s coin size ok =
    option_cases IsConsistent (lookup same_text s.positions coin) (λ e. ok) (λ p e. ok)

seed_spot_loop-IsConsistent :
    (s : Client) (assets : List AssetInfo) → IsConsistent s → IsConsistent (seed_spot_loop s assets)
unfolding seed_spot_loop
seed_spot_loop-IsConsistent s [] ok = ok
seed_spot_loop-IsConsistent s (asset ∷ assets) ok =
    if_cases IsConsistent (not (is_spot asset.kind) || (length asset.base_token == 0))
      (λ e. seed_spot_loop-IsConsistent s assets ok)
      (λ e.
        option_cases IsConsistent (lookup same_text s.spot_tokens asset.base_token)
          (λ e. seed_spot_loop-IsConsistent s assets ok)
          (λ balance e.
            seed_spot_loop-IsConsistent (try_emplace s asset.name balance) assets
              (try_emplace-IsConsistent s asset.name balance ok)))

seed_spot_positions-IsConsistent :
    (s : Client) → IsConsistent s → IsConsistent (seed_spot_positions s)
unfolding seed_spot_positions
seed_spot_positions-IsConsistent s ok =
    if_cases IsConsistent (not s.spot_balances_loaded || not s.assets_loaded) (λ e. ok)
      (λ e. seed_spot_loop-IsConsistent s s.assets ok)

pub on_assets-IsConsistent :
    (s : Client) (answer : Result (List AssetInfo))
    → IsConsistent s
    → IsConsistent (on_assets s answer)
unfolding on_assets
on_assets-IsConsistent s (failure e) ok = ok
on_assets-IsConsistent s (success assets) ok =
    maybe_ready-IsConsistent _ (seed_spot_positions-IsConsistent _ ok)

pub on_spot_balances-IsConsistent :
    (s : Client) (answer : Result (List (List ℕ × Decimal)))
    → IsConsistent s
    → IsConsistent (on_spot_balances s answer)
unfolding on_spot_balances
on_spot_balances-IsConsistent s (failure e) ok =
    maybe_ready-IsConsistent _ (seed_spot_positions-IsConsistent _ ok)
on_spot_balances-IsConsistent s (success balances) ok =
    maybe_ready-IsConsistent _ (seed_spot_positions-IsConsistent _ ok)

emplace_all-IsConsistent :
    (s : Client) (positions : List (List ℕ × Decimal))
    → IsConsistent s
    → IsConsistent (emplace_all s positions)
unfolding emplace_all
emplace_all-IsConsistent s [] ok = ok
emplace_all-IsConsistent s ((coin, size) ∷ rest) ok =
    emplace_all-IsConsistent (try_emplace s coin size) rest
      (try_emplace-IsConsistent s coin size ok)

pub on_positions-IsConsistent :
    (s : Client) (answer : Result (List (List ℕ × Decimal)))
    → IsConsistent s
    → IsConsistent (on_positions s answer)
unfolding on_positions
on_positions-IsConsistent s (failure e) ok = maybe_ready-IsConsistent _ ok
on_positions-IsConsistent s (success positions) ok =
    maybe_ready-IsConsistent _ (emplace_all-IsConsistent s positions ok)

pub resubscribe_user-IsConsistent :
    (s : Client) → IsConsistent s → IsConsistent (resubscribe_user s)
unfolding resubscribe_user
resubscribe_user-IsConsistent s ok = ok

pub start_client-IsConsistent : (s : Client) → IsConsistent s → IsConsistent (start_client s)
unfolding start_client
start_client-IsConsistent s ok = if_cases IsConsistent s.started (λ e. ok) (λ e. ok)

pub stop_client-IsConsistent : (s : Client) → IsConsistent s → IsConsistent (stop_client s)
unfolding stop_client
stop_client-IsConsistent s ok = if_cases IsConsistent (not s.started) (λ e. ok) (λ e. ok)

pub session_opens-IsConsistent : (s : Client) → IsConsistent s → IsConsistent (session_opens s)
unfolding session_opens
session_opens-IsConsistent s ok = ok

complete_lost-IsConsistent :
    (s : Client) (ids reason : List ℕ) → IsConsistent s → IsConsistent (complete_lost s ids reason)
unfolding complete_lost
complete_lost-IsConsistent s [] reason ok = ok
complete_lost-IsConsistent s (id ∷ ids) reason ok =
    complete_lost-IsConsistent (complete_action s id (socket_closed reason)) ids reason
      (complete_action-IsConsistent s id (socket_closed reason) ok)

pub session_closes-IsConsistent :
    (s : Client) (reason : List ℕ) → IsConsistent s → IsConsistent (session_closes s reason)
unfolding session_closes
session_closes-IsConsistent s reason ok =
    complete_lost-IsConsistent _ (lost_actions s.pending) reason ok

pub on_subscription_response-IsConsistent :
    (s : Client) (kind : List ℕ) → IsConsistent s → IsConsistent (on_subscription_response s kind)
unfolding on_subscription_response
on_subscription_response-IsConsistent s kind ok = maybe_ready-IsConsistent _ (
    if_cases IsConsistent (same_text kind (codes "orderUpdates")) (λ e. ok)
      (λ e. if_cases IsConsistent (same_text kind (codes "userFills")) (λ e. ok) (λ e. ok)))

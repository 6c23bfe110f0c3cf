-- ===== src/Om/Orders/Consistency/Steps.antt =====
-- src/om/ExchangeClient.cpp: over everything that happens to a client.
use hyperliquid_cpp.Base.{ℕ, List, [], ◌∷◌}
use hyperliquid_cpp.Base.Assoc.{lookup}
use hyperliquid_cpp.Om.Orders.{ExchangeConfig, Client}
use hyperliquid_cpp.Om.Orders.Table.{find}
use hyperliquid_cpp.Om.Orders.Steps.{
  StreamMessage, hear, heard, Event, order_updates, user_fills, non_user_cancels, status_answer,
  amended_answer, listing_answer, adoption_answer, assets_answer, balances_answer, positions_answer,
  master_found, started, stopped, session_opened, session_lost, subscribed, retry_timer,
  not_found_timer, eviction_timer, action_answer, placed, cancelled, cancelled_oid, cancelled_all,
  modified, submitted, cancel_scheduled, leverage_set, margin_moved, weight_reserved, noop_sent,
  surroundings, step, run, new_client,
}
use hyperliquid_cpp.Om.Orders.Consistency.{IsConsistent, none_ne_some}
use hyperliquid_cpp.Om.Orders.Consistency.Handlers.{
  on_order_updates-IsConsistent, on_user_fills-IsConsistent, on_non_user_cancels-IsConsistent,
}
use hyperliquid_cpp.Om.Orders.Consistency.Answers.{
  on_order_status-IsConsistent, on_retry-IsConsistent, on_not_found_retry-IsConsistent,
  on_amended_listing-IsConsistent, on_full_listing-IsConsistent,
}
use hyperliquid_cpp.Om.Orders.Consistency.Eviction.{evict-IsConsistent}
use hyperliquid_cpp.Om.Orders.Consistency.Requests.{complete_action-IsConsistent}
use hyperliquid_cpp.Om.Orders.Calls.{reserve_weight, send_noop}
use hyperliquid_cpp.Om.Orders.Consistency.After.{IsConsistentAfter}
use hyperliquid_cpp.Om.Orders.Consistency.Calls.{
  submit_action-IsConsistent, if_started-IsConsistent, schedule_cancel_at-IsConsistent,
  set_leverage-IsConsistent, set_isolated_margin-IsConsistent,
}
use hyperliquid_cpp.Om.Orders.Consistency.Readiness.{
  on_adoption_listing-IsConsistent, on_assets-IsConsistent, on_spot_balances-IsConsistent,
  on_positions-IsConsistent, resubscribe_user-IsConsistent, start_client-IsConsistent,
  stop_client-IsConsistent, session_opens-IsConsistent, session_closes-IsConsistent,
  on_subscription_response-IsConsistent,
}
use hyperliquid_cpp.Om.Orders.Consistency.Entries.{
  place_orders-IsConsistent, cancel_order-IsConsistent, cancel_by_oid-IsConsistent,
  cancel_all-IsConsistent, modify-IsConsistent,
}

hear-IsConsistent : (s : Client) (m : StreamMessage) → IsConsistent s → IsConsistent (hear s m)
unfolding hear
hear-IsConsistent s (order_updates us) ok = on_order_updates-IsConsistent s us ok
hear-IsConsistent s (user_fills msg) ok = on_user_fills-IsConsistent s msg ok
hear-IsConsistent s (non_user_cancels oids) ok = on_non_user_cancels-IsConsistent s oids ok

step-IsConsistent : (s : Client) (e : Event) → IsConsistent s → IsConsistent (step s e)
unfolding step IsConsistentAfter reserve_weight send_noop
step-IsConsistent s (heard m) ok = hear-IsConsistent s m ok
step-IsConsistent s (status_answer cloid r) ok = on_order_status-IsConsistent s cloid ok r
step-IsConsistent s (amended_answer cloid r) ok = on_amended_listing-IsConsistent s cloid ok r
step-IsConsistent s (listing_answer live r) ok = on_full_listing-IsConsistent s live r ok
step-IsConsistent s (adoption_answer r) ok = on_adoption_listing-IsConsistent s r ok
step-IsConsistent s (assets_answer r) ok = on_assets-IsConsistent s r ok
step-IsConsistent s (balances_answer r) ok = on_spot_balances-IsConsistent s r ok
step-IsConsistent s (positions_answer r) ok = on_positions-IsConsistent s r ok
step-IsConsistent s master_found ok = resubscribe_user-IsConsistent s ok
step-IsConsistent s started ok = start_client-IsConsistent s ok
step-IsConsistent s stopped ok = stop_client-IsConsistent s ok
step-IsConsistent s session_opened ok = session_opens-IsConsistent s ok
step-IsConsistent s (session_lost reason) ok = session_closes-IsConsistent s reason ok
step-IsConsistent s (subscribed kind) ok = on_subscription_response-IsConsistent s kind ok
step-IsConsistent s (retry_timer cloid) ok = on_retry-IsConsistent s cloid ok
step-IsConsistent s (not_found_timer cloid) ok = on_not_found_retry-IsConsistent s cloid ok
step-IsConsistent s eviction_timer ok = evict-IsConsistent s ok
step-IsConsistent s (action_answer id r) ok = complete_action-IsConsistent s id r ok
step-IsConsistent s (placed reqs g b) ok = place_orders-IsConsistent s ok reqs g b
step-IsConsistent s (cancelled cloid) ok = cancel_order-IsConsistent s ok cloid
step-IsConsistent s (cancelled_oid coin oid) ok = cancel_by_oid-IsConsistent s ok coin oid
step-IsConsistent s (cancelled_all coin) ok = cancel_all-IsConsistent s ok coin
step-IsConsistent s (modified c px size trigger) ok = modify-IsConsistent s ok c px size trigger
step-IsConsistent s (submitted action waits) ok = submit_action-IsConsistent s ok action waits
step-IsConsistent s (cancel_scheduled time waits) ok =
    schedule_cancel_at-IsConsistent s ok time waits
step-IsConsistent s (leverage_set coin l c waits) ok = set_leverage-IsConsistent s ok coin l c waits
step-IsConsistent s (margin_moved coin usdc waits) ok =
    set_isolated_margin-IsConsistent s ok coin usdc waits
step-IsConsistent s (weight_reserved weight waits) ok = if_started-IsConsistent s ok _ waits
step-IsConsistent s (noop_sent waits) ok = if_started-IsConsistent s ok _ waits
step-IsConsistent s (surroundings now accepts) ok = ok

run-keeps : (s : Client) (es : List Event) → IsConsistent s → IsConsistent (run s es)
unfolding run
run-keeps s [] ok = ok
run-keeps s (e ∷ es) ok = run-keeps (step s e) es (step-IsConsistent s e ok)

new-IsConsistent : (config : ExchangeConfig) (n : ℕ) → IsConsistent (new_client config n)
unfolding find lookup
new-IsConsistent config n = record {
  keys = λ c t at. absurd (none_ne_some at);
  index = λ oid c at. absurd (none_ne_some at);
}

-- Whatever happens to a new client, every order of its table stands under its own cloid, and every
-- entry of its index by oid leads to an order of the table that has this oid, which is not zero.
pub run-IsConsistent :
    (config : ExchangeConfig) (n : ℕ) (es : List Event)
    → IsConsistent (run (new_client config n) es)
run-IsConsistent config n es = run-keeps (new_client config n) es (new-IsConsistent config n)

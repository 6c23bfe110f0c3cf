-- ===== src/Om/Orders/Steps.antt =====
-- src/om/ExchangeClient.cpp: what can happen to a client: messages of its streams, answers, timers
-- and calls. The answers to a question may come in any order and any number of times.
use hyperliquid_cpp.Base.{ℕ, Bool, true, false, Option, List, [], ◌∷◌}
use hyperliquid_cpp.Base.Int.{ℤ, pos}
use hyperliquid_cpp.Core.Decimal.{Decimal}
use hyperliquid_cpp.Core.Hex.{Cloid}
use hyperliquid_cpp.Core.Errors.{Result}
use hyperliquid_cpp.Om.Actions.Wire.{TriggerSpec, OrderGrouping, BuilderFee, EncodedAction}
use hyperliquid_cpp.Om.AssetRegistry.{AssetInfo}
use hyperliquid_cpp.Om.Orders.{
  OrderUpdateMsg, UserFillsMsg, OpenOrder, OrderStatusInfo, ExchangeResponse, ExchangeConfig,
  Client,
}
use hyperliquid_cpp.Om.Orders.Streams.{on_order_updates, on_user_fills, on_non_user_cancels}
use hyperliquid_cpp.Om.Orders.Reconcile.{
  on_order_status, on_retry, on_not_found_retry, on_amended_listing, on_full_listing, evict,
}
use hyperliquid_cpp.Om.Orders.Results.{complete_action}
use hyperliquid_cpp.Om.Orders.Entry.{OrderRequest, place_orders}
use hyperliquid_cpp.Om.Orders.Calls.{
  submit_action, schedule_cancel_at, set_leverage, set_isolated_margin, reserve_weight, send_noop,
}
use hyperliquid_cpp.Om.Orders.Readiness.{
  on_adoption_listing, on_assets, on_spot_balances, on_positions, resubscribe_user, start_client,
  stop_client, session_opens, session_closes, on_subscription_response,
}
use hyperliquid_cpp.Om.Orders.Cancels.{cancel_order, cancel_by_oid, cancel_all, modify}

-- The messages of the private streams that speak of orders.
pub data StreamMessage : Type 0 where
  order_updates : List OrderUpdateMsg → StreamMessage
  user_fills : UserFillsMsg → StreamMessage
  non_user_cancels : List ℕ → StreamMessage

unfoldable pub hear : Client → StreamMessage → Client
hear s (order_updates us) = on_order_updates s us
hear s (user_fills msg) = on_user_fills s msg
hear s (non_user_cancels oids) = on_non_user_cancels s oids

unfoldable pub hear_all : Client → List StreamMessage → Client
hear_all s [] = s
hear_all s (m ∷ ms) = hear_all (hear s m) ms

pub data Event : Type 0 where
  heard : StreamMessage → Event
  status_answer : Cloid → Result OrderStatusInfo → Event
  amended_answer : Cloid → Result (List OpenOrder) → Event
  listing_answer : List Cloid → Result (List OpenOrder) → Event
  adoption_answer : Result (List OpenOrder) → Event
  assets_answer : Result (List AssetInfo) → Event
  balances_answer : Result (List (List ℕ × Decimal)) → Event
  positions_answer : Result (List (List ℕ × Decimal)) → Event
  master_found started stopped session_opened : Event
  session_lost : List ℕ → Event
  subscribed : List ℕ → Event
  retry_timer : Cloid → Event
  not_found_timer : Cloid → Event
  eviction_timer : Event
  action_answer : ℕ → Result ExchangeResponse → Event
  placed : List OrderRequest → OrderGrouping → Option BuilderFee → Event
  cancelled : Cloid → Event
  cancelled_oid : List ℕ → ℕ → Event
  cancelled_all : List ℕ → Event
  modified : Cloid → Decimal → Decimal → Option TriggerSpec → Event
  submitted : EncodedAction → Bool → Event
  cancel_scheduled : Option ℤ → Bool → Event
  leverage_set : List ℕ → ℕ → Bool → Bool → Event
  margin_moved : List ℕ → Decimal → Bool → Event
  weight_reserved : ℕ → Bool → Event
  noop_sent : Bool → Event
  surroundings : ℤ → (ℕ → Bool) → Event

unfoldable pub step : Client → Event → Client
step s (heard m) = hear s m
step s (status_answer cloid answer) = on_order_status s cloid answer
step s (amended_answer cloid answer) = on_amended_listing s cloid answer
step s (listing_answer live answer) = on_full_listing s live answer
step s (adoption_answer answer) = on_adoption_listing s answer
step s (assets_answer answer) = on_assets s answer
step s (balances_answer answer) = on_spot_balances s answer
step s (positions_answer answer) = on_positions s answer
step s master_found = resubscribe_user s
step s started = start_client s
step s stopped = stop_client s
step s session_opened = session_opens s
step s (session_lost reason) = session_closes s reason
step s (subscribed kind) = on_subscription_response s kind
step s (retry_timer cloid) = on_retry s cloid
step s (not_found_timer cloid) = on_not_found_retry s cloid
step s eviction_timer = evict s
step s (action_answer id result) = complete_action s id result
step s (placed reqs grouping builder) = (place_orders s reqs grouping builder).0
step s (cancelled cloid) = (cancel_order s cloid).0
step s (cancelled_oid coin oid) = (cancel_by_oid s coin oid).0
step s (cancelled_all coin) = (cancel_all s coin).0
step s (modified cloid px size trigger) = (modify s cloid px size trigger).0
step s (submitted action waits) = submit_action s action waits
step s (cancel_scheduled time waits) = (schedule_cancel_at s time waits).0
step s (leverage_set coin leverage is_cross waits) = (set_leverage s coin leverage is_cross waits).0
step s (margin_moved coin usdc waits) = (set_isolated_margin s coin usdc waits).0
step s (weight_reserved weight waits) = (reserve_weight s weight waits).0
step s (noop_sent waits) = (send_noop s waits).0
step s (surroundings now accepts) = record s { now = now; accepts = accepts }

unfoldable pub run : Client → List Event → Client
run s [] = s
run s (e ∷ es) = run (step s e) es

-- A client after its constructor.
abbrev pub new_client : ExchangeConfig → ℕ → Client
new_client config cloid_session = record {
  config = config;
  assets = [];
  orders = [];
  oid_index = [];
  positions = [];
  seen_tids = [];
  seen_tid_order = [];
  fills_snapshot_seen = false;
  pending = [];
  next_request_id = 1;
  started = false;
  assets_loaded = false;
  fills = 0;
  reconciles = 0;
  actions_sent = 0;
  actions_via_http = 0;
  action_errors = 0;
  timeouts = 0;
  address_units_used = 0;
  cloid_session = cloid_session;
  cloid_counter = 0;
  ready = false;
  was_ready_before = false;
  positions_loaded = false;
  spot_balances_loaded = false;
  spot_tokens = [];
  order_updates_acked = false;
  user_fills_acked = false;
  orders_adopted = false;
  adoption_in_flight = false;
  session_open = false;
  accepts = λ id. true;
  now = pos 0;
  outputs = [];
}

-- ===== src/Om/Orders/Readiness.antt =====
-- src/om/ExchangeClient.cpp: start and stop, the session's callbacks, and what has to be loaded
-- before the client is ready. The subscriptions and timers that a start sets up, and the wallet that
-- `userRole` tells of, are left out.
use hyperliquid_cpp.Base.{
  ℕ, Bool, true, false, ◌&&◌, ◌||◌, not, none, some, List, [], ◌∷◌, ◌++◌, ◌==◌, if◌then◌else◌,
  length, codes,
}
use hyperliquid_cpp.Base.Int.{pos}
use hyperliquid_cpp.Base.Assoc.{lookup, insert}
use hyperliquid_cpp.Base.Texts.{same_text}
use hyperliquid_cpp.Core.Decimal.{Decimal}
use hyperliquid_cpp.Core.Errors.{ErrorKind, Result, success, failure}
use hyperliquid_cpp.Om.AssetRegistry.{AssetInfo, Kind}
use hyperliquid_cpp.Om.Orders.{
  OpenOrder, PendingAction, ExchangeResponse, told_ready, told_disconnected, asked_bootstrap,
  asked_adoption, asked_positions, retry_assets, told_error, Client,
}
use hyperliquid_cpp.Om.Orders.Table.{say}
use hyperliquid_cpp.Om.Orders.Reconcile.{adopt_from_listing, reconcile_all}
use hyperliquid_cpp.Om.Orders.Results.{complete_action}

unfoldable pub may_be_ready : Client → Bool
may_be_ready s = not (
    s.ready
    || not s.started
    || not s.assets_loaded
    || not s.positions_loaded
    || not s.session_open
    || not s.order_updates_acked
    || not s.user_fills_acked
    || (s.config.load_spot_assets && not s.spot_balances_loaded))

unfoldable pub now_ready : Client → Client
now_ready s =
    let r = record s { ready = true } in
    let t = if s.was_ready_before then reconcile_all r else r in
    say (record t { was_ready_before = true }) told_ready

unfoldable pub maybe_ready : Client → Client
maybe_ready s =
    if not (may_be_ready s)
    then s
    else if not s.was_ready_before && s.config.adopt_existing_orders && not s.orders_adopted
    then (if s.adoption_in_flight
        then s
        else say (record s { adoption_in_flight = true }) asked_adoption)
    else now_ready s

-- The answer to `adoptOpenOrders`.
unfoldable pub on_adoption_listing : Client → Result (List OpenOrder) → Client
on_adoption_listing s (failure e) =
    maybe_ready (record s { adoption_in_flight = false; orders_adopted = true })
on_adoption_listing s (success listing) =
    maybe_ready
      (adopt_from_listing (record s { adoption_in_flight = false; orders_adopted = true }) listing)

-- `positions_.try_emplace`.
unfoldable pub try_emplace : Client → List ℕ → Decimal → Client
try_emplace s coin size = elim (lookup same_text s.positions coin) [
  | some p ↦ s
  | none ↦ record s {
    positions = insert same_text s.positions coin (record { size = size; last_fill_ms = pos 0 });
  }
]

abbrev pub is_spot : Kind → Bool
is_spot Kind.perp = false
is_spot Kind.spot = true

unfoldable pub seed_spot_loop : Client → List AssetInfo → Client
seed_spot_loop s [] = s
seed_spot_loop s (asset ∷ assets) =
    if not (is_spot asset.kind) || (length asset.base_token == 0)
    then seed_spot_loop s assets
    else elim (lookup same_text s.spot_tokens asset.base_token) [
      | none ↦ seed_spot_loop s assets
      | some balance ↦ seed_spot_loop (try_emplace s asset.name balance) assets
    ]

unfoldable pub seed_spot_positions : Client → Client
seed_spot_positions s =
    if not s.spot_balances_loaded || not s.assets_loaded then s else seed_spot_loop s s.assets

-- The answers to the questions of `bootstrap`.
unfoldable pub on_assets : Client → Result (List AssetInfo) → Client
on_assets s (failure e) = say (say s (told_error e)) retry_assets
on_assets s (success assets) =
    maybe_ready (seed_spot_positions (record s { assets = assets; assets_loaded = true }))

unfoldable pub put_balances :
    List (List ℕ × Decimal) → List (List ℕ × Decimal) → List (List ℕ × Decimal)
put_balances tokens [] = tokens
put_balances tokens ((coin, total) ∷ rest) = put_balances (insert same_text tokens coin total) rest

unfoldable pub on_spot_balances : Client → Result (List (List ℕ × Decimal)) → Client
on_spot_balances s (failure e) =
    maybe_ready (seed_spot_positions (record s { spot_balances_loaded = true }))
on_spot_balances s (success balances) = maybe_ready (
    seed_spot_positions
      (record s { spot_balances_loaded = true; spot_tokens = put_balances s.spot_tokens balances }))

unfoldable pub emplace_all : Client → List (List ℕ × Decimal) → Client
emplace_all s [] = s
emplace_all s ((coin, size) ∷ rest) = emplace_all (try_emplace s coin size) rest

unfoldable pub on_positions : Client → Result (List (List ℕ × Decimal)) → Client
on_positions s (failure e) = maybe_ready (record s { positions_loaded = true })
on_positions s (success positions) =
    maybe_ready (record (emplace_all s positions) { positions_loaded = true })

-- `resubscribeUser` up to its question for the positions.
unfoldable pub resubscribe_user : Client → Client
resubscribe_user s =
    say
      (record s {
        order_updates_acked = false;
        user_fills_acked = false;
        ready = false;
        positions = [];
        fills_snapshot_seen = false;
        positions_loaded = false;
        spot_balances_loaded = not s.config.load_spot_assets;
      })
      asked_positions

unfoldable pub start_client : Client → Client
start_client s = if s.started then s else say (record s { started = true }) asked_bootstrap

unfoldable pub stop_client : Client → Client
stop_client s =
    if not s.started
    then s
    else record s { started = false; ready = false; session_open = false; pending = [] }

unfoldable pub session_opens : Client → Client
session_opens s = record s {
  session_open = true;
  order_updates_acked = false;
  user_fills_acked = false;
}

unfoldable pub lost_actions : List (ℕ × PendingAction) → List ℕ
lost_actions [] = []
lost_actions ((id, p) ∷ rest) =
    let later = lost_actions rest in if p.via_web_socket then id ∷ later else later

abbrev pub socket_closed : List ℕ → Result ExchangeResponse
socket_closed reason = failure (record {
  kind = ErrorKind.transport;
  http_status = 0;
  message = codes "WebSocket closed: " ++ reason;
})

unfoldable pub complete_lost : Client → List ℕ → List ℕ → Client
complete_lost s [] reason = s
complete_lost s (id ∷ ids) reason =
    complete_lost (complete_action s id (socket_closed reason)) ids reason

unfoldable pub session_closes : Client → List ℕ → Client
session_closes s reason =
    let closed = record s {
      session_open = false;
      ready = false;
      order_updates_acked = false;
      user_fills_acked = false;
    } in
    say (complete_lost closed (lost_actions s.pending) reason) told_disconnected

unfoldable pub on_subscription_response : Client → List ℕ → Client
on_subscription_response s subscription_type = maybe_ready (
    if same_text subscription_type (codes "orderUpdates")
    then record s { order_updates_acked = true }
    else if same_text subscription_type (codes "userFills")
    then record s { user_fills_acked = true }
    else s)

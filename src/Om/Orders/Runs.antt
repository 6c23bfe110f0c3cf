-- ===== src/Om/Orders/Runs.antt =====
-- src/om/ExchangeClient.cpp: the theorems on small clients, and tests.
use hyperliquid_cpp.Base.{
  ℕ, ◌≡◌, ◌≤◌, ◌⊎◌, refl, true, false, Option, none, some, List, [], ◌∷◌, codes, arith,
}
use hyperliquid_cpp.Base.Int.{◌+ℤ◌, ◌*ℤ◌, tdiv, pos}
use hyperliquid_cpp.Base.Assoc.{lookup, insert, erase_key}
use hyperliquid_cpp.Base.Texts.{same_text}
use hyperliquid_cpp.Core.Decimal.{from_raw}
use hyperliquid_cpp.Core.Hex.{Cloid}
use hyperliquid_cpp.Core.Errors.{Result, success}
use hyperliquid_cpp.Md.OrderBook.{Side}
use hyperliquid_cpp.Om.Actions.Wire.{Tif, named, Grouping}
use hyperliquid_cpp.Om.AssetRegistry.{AssetInfo, Kind}
use hyperliquid_cpp.Om.AssetRegistry.Loading
use hyperliquid_cpp.Om.Orders.{
  Fill, UserFillsMsg, to_int64, OrderState, Tracked, OrderUpdateStatus, OrderUpdateMsg,
  ActionStatusKind, ExchangeResponse, ExchangeConfig, Client, external_cloid_high, zero_decimal,
  is_terminal,
}
use hyperliquid_cpp.Om.Orders.Table.{
  recompute_fills, larger, same_cloid, same_oid, find, find_by_oid, new_order, new_tracked, track,
  set_oid, next_generation, store, emit, mark_emitted, same_emitted, news, state_number, same_bool,
}
use hyperliquid_cpp.Om.Orders.Lifecycle.{apply_venue_status, switch_status, apply_canceled}
use hyperliquid_cpp.Om.Orders.Streams.{
  on_user_fills, fill_loop, on_fill, remember, on_new_fill, move_position, end_position, fill_order,
  add_fill, known, known_by_cloid, cloid_or_external, asset_or, track_external, contains,
  on_generation, on_status, on_held, on_order_update, on_order_updates,
}
use hyperliquid_cpp.Om.Orders.Entry.{OrderRequest}
use hyperliquid_cpp.Om.Orders.Steps.{
  StreamMessage, order_updates, hear_all, Event, heard, placed, action_answer, modified,
  eviction_timer, started, assets_answer, positions_answer, session_opened, subscribed,
  adoption_answer, session_lost, surroundings, run, new_client,
}
use hyperliquid_cpp.Om.Orders.Consistency.{IsConsistent}
use hyperliquid_cpp.Om.Orders.Consistency.Steps.{run-IsConsistent}
use hyperliquid_cpp.Om.Orders.Generations.Messages.{hear_all-IsLater}
use hyperliquid_cpp.Om.Orders.Replay.{on_user_fills-again}

abbrev config : ExchangeConfig
config = record {
  over_web_socket = true;
  load_spot_assets = false;
  fast_cancels = true;
  builder_fee = none;
  adopt_existing_orders = true;
  terminal_order_retention_ms = pos 60000;
}

abbrev btc : AssetInfo
btc = record {
  name = codes "BTC";
  asset = 0;
  kind = Kind.perp;
  sz_decimals = pos 5;
  base_token = [];
  max_leverage = 40;
  only_isolated = false;
  is_delisted = false;
}

abbrev mine : Cloid
mine = record { high = 7; low = 1 }

abbrev update : ℕ → Option Cloid → OrderUpdateStatus → OrderUpdateMsg
update oid cloid status = record {
  coin = codes "BTC";
  side = Side.buy;
  limit_px = from_raw (pos 5000000000000);
  sz = from_raw (pos 100000000);
  orig_sz = from_raw (pos 100000000);
  oid = oid;
  timestamp_ms = pos 1000;
  cloid = cloid;
  status = status;
  status_text = codes "canceled";
  status_timestamp_ms = pos 1000;
}

abbrev request : OrderRequest
request = record {
  coin = codes "BTC";
  side = Side.buy;
  px = from_raw (pos 5000000000000);
  sz = from_raw (pos 100000000);
  tif = Tif.gtc;
  reduce_only = false;
  trigger = none;
  cloid = none;
}

abbrev resting : ℕ → Result ExchangeResponse
resting oid = success (record {
  response_type = codes "order";
  statuses =
      record {
        kind = ActionStatusKind.resting;
        oid = oid;
        cloid = none;
        total_sz = zero_decimal;
        avg_px = zero_decimal;
        error = [];
      }
      ∷ [];
})

-- An order is placed, acknowledged and amended, and an order of somebody else comes and goes.
abbrev script : List Event
script =
    started
    ∷ assets_answer (success (btc ∷ []))
    ∷ positions_answer (success [])
    ∷ session_opened
    ∷ subscribed (codes "orderUpdates")
    ∷ subscribed (codes "userFills")
    ∷ adoption_answer (success [])
    ∷ surroundings (pos 1000) (λ id. true)
    ∷ placed (request ∷ []) (named Grouping.na) none
    ∷ action_answer 1 (resting 10)
    ∷ modified mine (from_raw (pos 4900000000000)) (from_raw (pos 100000000)) none
    ∷ heard (
        order_updates (
          update 10 (some mine) OrderUpdateStatus.canceled
          ∷ update 20 none OrderUpdateStatus.opened
          ∷ update 20 none OrderUpdateStatus.canceled
          ∷ []))
    ∷ action_answer 2 (resting 11)
    ∷ session_lost (codes "EOF")
    ∷ surroundings (pos 100000) (λ id. true)
    ∷ eviction_timer
    ∷ []

run-IsConsistent_example : IsConsistent (run (new_client config 7) script)
run-IsConsistent_example = run-IsConsistent config 7 script

abbrev amended : Cloid → Tracked
amended cloid = record new_tracked {
  order = record new_order {
    cloid = cloid;
    oid = 11;
    coin = codes "BTC";
    px = from_raw (pos 4900000000000);
    orig_sz = from_raw (pos 100000000);
    state = OrderState.opened;
  };
}

abbrev after_amendment : Cloid → Client
after_amendment cloid = record (new_client config 7) {
  orders = (cloid, amended cloid) ∷ [];
  oid_index = (11, cloid) ∷ [];
}

abbrev late : List StreamMessage
late = order_updates (update 10 (some mine) OrderUpdateStatus.canceled ∷ []) ∷ []

hear_all-IsLater_example :
    (u : Tracked) × (find (hear_all (after_amendment mine) late).orders mine ≡ some u)
    × (11 ≤ u.order.oid)
    × ((is_terminal OrderState.opened ≡ false)
        ⊎ (u.order.state ≡ OrderState.opened)
        ⊎ (u.order.state ≡ OrderState.filled))
unfolding find lookup same_cloid
hear_all-IsLater_example =
    hear_all-IsLater (after_amendment mine) late mine (amended mine) (omega arith) refl

abbrev oid_and_state : Option Tracked → Option (ℕ × OrderState)
oid_and_state none = none
oid_and_state (some t) = some (t.order.oid, t.order.state)

-- The late news of a cancel leaves an amended order of this client's own.
late-ignored :
    oid_and_state (
      find
        (on_order_updates
          (after_amendment mine)
          (update 10 (some mine) OrderUpdateStatus.canceled ∷ [])).orders
        mine)
    ≡ some (11, OrderState.opened)
unfolding find lookup same_cloid on_order_updates on_order_update known known_by_cloid on_held
    on_generation store insert
late-ignored = refl

abbrev elsewhere : Cloid
elsewhere = record { high = external_cloid_high; low = 10 }

-- The same news without a cloid takes an amended order of somebody else back to its old oid, and it
-- is canceled there.
late-taken :
    oid_and_state (
      find
        (on_order_updates
          (after_amendment elsewhere)
          (update 10 none OrderUpdateStatus.canceled ∷ [])).orders
        elsewhere)
    ≡ some (10, OrderState.canceled)
unfolding find find_by_oid lookup same_cloid same_oid on_order_updates on_order_update known
    known_by_cloid cloid_or_external track_external track asset_or set_oid next_generation on_held
    on_generation on_status store insert erase_key apply_venue_status switch_status apply_canceled
    emit mark_emitted same_emitted news state_number same_bool same_text contains Loading.find
late-taken = refl

abbrev fill : ℕ → Fill
fill tid = record {
  coin = codes "BTC";
  side = Side.buy;
  px = from_raw (pos 4900000000000);
  sz = from_raw (pos 50000000);
  time_ms = pos 2000;
  oid = 11;
  tid = tid;
  cloid = some mine;
  crossed = false;
  fee = zero_decimal;
  fee_token = codes "USDC";
  closed_pnl = zero_decimal;
  start_position = zero_decimal;
  dir = codes "Open Long";
  hash = [];
}

abbrev two_fills : UserFillsMsg
two_fills = record { is_snapshot = false; user = []; fills = fill 1 ∷ fill 2 ∷ [] }

on_user_fills-again_example :
    on_user_fills (on_user_fills (after_amendment mine) two_fills) two_fills
    ≡ on_user_fills (after_amendment mine) two_fills
on_user_fills-again_example = on_user_fills-again (after_amendment mine) two_fills (omega arith)

-- The two halves fill the order.
two_fills_fill_it :
    oid_and_state (find (on_user_fills (after_amendment mine) two_fills).orders mine)
    ≡ some (11, OrderState.filled)
unfolding find lookup insert same_cloid on_user_fills fill_loop on_fill contains remember
    on_new_fill move_position same_text end_position known known_by_cloid fill_order add_fill
    recompute_fills larger emit mark_emitted same_emitted news state_number same_bool store ◌+ℤ◌
    ◌*ℤ◌ tdiv to_int64
two_fills_fill_it = refl

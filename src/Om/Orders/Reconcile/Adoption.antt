-- ===== src/Om/Orders/Reconcile/Adoption.antt =====
-- src/om/ExchangeClient.cpp: the adoption of orders that the venue lists as open.
use hyperliquid_cpp.Base.{
  ℕ, Bool, true, false, ◌&&◌, ◌||◌, not, none, some, List, [], ◌∷◌, ◌==◌, if◌then◌else◌, codes,
}
use hyperliquid_cpp.Base.Int.{◌*ℤ◌, is_neg}
use hyperliquid_cpp.Core.Hex.{Cloid}
use hyperliquid_cpp.Om.Actions.Wire.{TriggerSpec, TriggerKind}
use hyperliquid_cpp.Om.Orders.{
  OrderState, is_terminal, Order, Tracked, OrderUpdateStatus, OpenOrder, Client, is_zero, minus,
}
use hyperliquid_cpp.Om.Orders.Table.{
  find, find_by_oid, Held, hold, track, recompute_fills, set_oid, emit,
}
use hyperliquid_cpp.Om.Orders.Lifecycle.{resting_state, apply_venue_status}
use hyperliquid_cpp.Om.Orders.Streams.{cloid_or_external, asset_or}

unfoldable pub seed_filled : Tracked → OpenOrder → Tracked
seed_filled t listed =
    let filled = minus listed.orig_sz listed.sz in
    if is_zero filled || is_neg filled.raw
    then t
    else recompute_fills (record t {
      fill_sum = filled;
      fill_notional = listed.limit_px.raw *ℤ filled.raw;
      ack_filled_sz = filled;
    })

unfoldable pub begins_with : List ℕ → List ℕ → Bool
begins_with [] text = true
begins_with (x ∷ xs) [] = false
begins_with (x ∷ xs) (y ∷ ys) = (x == y) && begins_with xs ys

-- `text.find(part) != npos`.
unfoldable pub has_part : List ℕ → List ℕ → Bool
has_part part [] = begins_with part []
has_part part (y ∷ ys) = begins_with part (y ∷ ys) || has_part part ys

unfoldable pub listed_trigger : OpenOrder → TriggerSpec
listed_trigger listed = record {
  trigger_px = listed.trigger_px;
  is_market = has_part (codes "Market") listed.order_type;
  kind =
      if has_part (codes "Take Profit") listed.order_type
      then TriggerKind.take_profit
      else TriggerKind.stop_loss;
}

-- The listing says that the order of the entry rests.
unfoldable pub settle_listed : Held → OpenOrder → Held
settle_listed h listed =
    let g = set_oid h listed.oid in
    record g {
      tracked =
          apply_venue_status g.tracked OrderUpdateStatus.opened (codes "open") listed.limit_px
            listed.orig_sz;
    }

-- An order that the table holds for over, under another oid.
unfoldable pub revive : Client → Cloid → Tracked → OpenOrder → Client
revive s cloid t listed =
    let order = record t.order { state = OrderState.opened; last_error = [] } in
    let g = set_oid (hold s (record t { order = order })) listed.oid in
    let seeded = seed_filled g.tracked listed in
    emit s cloid (record g {
      tracked =
          apply_venue_status seeded OrderUpdateStatus.opened (codes "open") listed.limit_px
            listed.orig_sz;
    })

-- The fields of an entry that the listing gives, up to `seedFilled`.
unfoldable pub listed_order : Client → Order → OpenOrder → Order
listed_order s o listed = record o {
  external = elim listed.cloid [ none ↦ true | some c ↦ false ];
  coin = listed.coin;
  asset = asset_or s.assets listed.coin o.asset;
  side = listed.side;
  px = listed.limit_px;
  orig_sz = listed.orig_sz;
}

unfoldable pub adopted_order : Order → OpenOrder → Order
adopted_order o listed = record o {
  reduce_only = listed.reduce_only;
  is_trigger = listed.is_trigger;
  trigger = if listed.is_trigger then some (listed_trigger listed) else o.trigger;
  state = resting_state o;
  created_ms = listed.timestamp_ms;
}

unfoldable pub adopt_new : Client → Cloid → OpenOrder → Client
adopt_new s cloid listed =
    let h = track s cloid in
    let order = listed_order s h.tracked.order listed in
    let t = seed_filled (record h.tracked { order = order }) listed in
    emit s cloid (
      set_oid (record h { tracked = record t { order = adopted_order t.order listed } }) listed.oid)

-- The loop's body.
unfoldable pub adopt : Client → OpenOrder → Client
adopt s listed =
    let cloid = cloid_or_external listed.cloid listed.oid in
    elim (find s.orders cloid) [
      | some t ↦
          if is_terminal t.order.state && not (t.order.oid == listed.oid)
          then revive s cloid t listed
          else s
      | none ↦ elim (find_by_oid s.orders s.oid_index listed.oid) [
        | some other ↦ s
        | none ↦ adopt_new s cloid listed
      ]
    ]

unfoldable pub adopt_from_listing : Client → List OpenOrder → Client
adopt_from_listing s [] = s
adopt_from_listing s (listed ∷ rest) = adopt_from_listing (adopt s listed) rest

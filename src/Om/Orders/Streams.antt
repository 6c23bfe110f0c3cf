-- ===== src/Om/Orders/Streams.antt =====
-- src/om/ExchangeClient.cpp: `onOrderUpdates`, `onUserFills` and `onNonUserCancels`, the messages of
-- the private streams. A listener leaves the client alone until the call is over.
use hyperliquid_cpp.Base.{
  ℕ, ◌+◌, Bool, true, false, ◌&&◌, ◌||◌, not, Option, none, some, List, [], ◌∷◌, ◌++◌, ◌==◌, ltb,
  if◌then◌else◌, length, codes,
}
use hyperliquid_cpp.Base.Int.{pos, le_ℤ, ◌+ℤ◌, ◌*ℤ◌}
use hyperliquid_cpp.Base.Assoc.{lookup, insert}
use hyperliquid_cpp.Base.Texts.{same_text}
use hyperliquid_cpp.Core.Decimal.{Decimal}
use hyperliquid_cpp.Core.Hex.{Cloid}
use hyperliquid_cpp.Md.OrderBook.{Side}
use hyperliquid_cpp.Om.AssetRegistry.{AssetInfo}
use hyperliquid_cpp.Om.AssetRegistry.Loading
use hyperliquid_cpp.Om.Orders.{
  OrderState, is_terminal, Tracked, OrderUpdateStatus, OrderUpdateMsg, Fill, UserFillsMsg,
  PositionState, told_fill, Client, max_remembered_tids, external_cloid_high, zero_decimal, plus,
  minus,
}
use hyperliquid_cpp.Om.Orders.Table.{
  find, find_by_oid, Held, hold, track, retire_oid, recompute_fills, set_oid, store, say, emit,
}
use hyperliquid_cpp.Om.Orders.Lifecycle.{with_state, apply_venue_status}

-- The entry that a message names, by its cloid first, with its key.
unfoldable pub known_by_cloid : Client → Option Cloid → Option (Cloid × Tracked)
known_by_cloid s none = none
known_by_cloid s (some cloid) = elim (find s.orders cloid) [
  | none ↦ none
  | some t ↦ some (cloid, t)
]

unfoldable pub known : Client → Option Cloid → ℕ → Option (Cloid × Tracked)
known s cloid oid = elim (known_by_cloid s cloid) [
  | none ↦ find_by_oid s.orders s.oid_index oid
  | some found ↦ some found
]

-- `value_or(Cloid{kExternalCloidHigh, oid})`.
unfoldable pub cloid_or_external : Option Cloid → ℕ → Cloid
cloid_or_external none oid = record { high = external_cloid_high; low = oid }
cloid_or_external (some cloid) oid = cloid

-- The asset of a coin, where the registry has it.
unfoldable pub asset_or : List AssetInfo → List ℕ → ℕ → ℕ
asset_or assets coin asset = elim (Loading.find coin assets) [
  | none ↦ asset
  | some info ↦ info.asset
]

-- The entry of an order placed elsewhere.
unfoldable pub track_external : Client → OrderUpdateMsg → Cloid → Held
track_external s u cloid =
    let h = track s cloid in
    let order = record h.tracked.order {
      external = true;
      coin = u.coin;
      asset = asset_or s.assets u.coin h.tracked.order.asset;
      side = u.side;
      px = u.limit_px;
      orig_sz = u.orig_sz;
      created_ms = u.timestamp_ms;
    } in
    set_oid (record h { tracked = record h.tracked { order = order } }) u.oid

abbrev pub may_be_live : OrderUpdateStatus → Bool
may_be_live OrderUpdateStatus.opened = true
may_be_live OrderUpdateStatus.filled = true
may_be_live OrderUpdateStatus.canceled = false
may_be_live OrderUpdateStatus.triggered = true
may_be_live OrderUpdateStatus.rejected = false
may_be_live OrderUpdateStatus.unknown = false

abbrev pub is_canceled_status : OrderUpdateStatus → Bool
is_canceled_status OrderUpdateStatus.opened = false
is_canceled_status OrderUpdateStatus.filled = false
is_canceled_status OrderUpdateStatus.canceled = true
is_canceled_status OrderUpdateStatus.triggered = false
is_canceled_status OrderUpdateStatus.rejected = false
is_canceled_status OrderUpdateStatus.unknown = false

unfoldable pub contains : List ℕ → ℕ → Bool
contains [] x = false
contains (y ∷ ys) x = (y == x) || contains ys x

-- The generation that an update speaks of: `none` where the update is skipped.
unfoldable pub on_generation : Held → OrderUpdateMsg → Option Held
on_generation h u =
    let o = h.tracked.order in
    if not (u.oid == 0) && not (o.oid == 0) && not (u.oid == o.oid)
    then (if ltb u.oid o.oid
        then none
        else if contains h.tracked.retired_oids u.oid
        then none
        else if o.modify_pending
        then (if not (may_be_live u.status)
            then none
            else some (set_oid (record h { tracked = retire_oid h.tracked o.oid }) u.oid))
        else some (set_oid h u.oid))
    else if not (u.oid == 0) && (o.oid == 0)
    then some (set_oid h u.oid)
    else some h

-- The rest of the loop's body.
unfoldable pub on_status : Client → Cloid → Held → OrderUpdateMsg → Client
on_status s cloid h u =
    let o = h.tracked.order in
    if o.modify_pending && (u.oid == o.oid) && is_canceled_status u.status
    then store s cloid (record h { tracked = record h.tracked { canceled_during_modify = true } })
    else emit s cloid (record h {
      tracked = apply_venue_status h.tracked u.status u.status_text u.limit_px u.orig_sz;
    })

unfoldable pub on_held : Client → Cloid → Held → OrderUpdateMsg → Client
on_held s cloid h u = elim (on_generation h u) [
  | none ↦ store s cloid h
  | some g ↦ on_status s cloid g u
]

unfoldable pub on_order_update : Client → OrderUpdateMsg → Client
on_order_update s u = elim (known s u.cloid u.oid) [
  | none ↦
      let cloid = cloid_or_external u.cloid u.oid in on_held s cloid (track_external s u cloid) u
  | some (cloid, t) ↦ on_held s cloid (hold s t) u
]

unfoldable pub on_order_updates : Client → List OrderUpdateMsg → Client
on_order_updates s [] = s
on_order_updates s (u ∷ us) = on_order_updates (on_order_update s u) us

-- `seenTids_` and `seenTidOrder_` after a trade that was not seen so far.
unfoldable pub without_tid : List ℕ → ℕ → List ℕ
without_tid [] tid = []
without_tid (x ∷ xs) tid = let rest = without_tid xs tid in if x == tid then rest else x ∷ rest

unfoldable pub forget : Client → List ℕ → Client
forget s [] = s
forget s (oldest ∷ order) = record s {
  seen_tids = without_tid s.seen_tids oldest;
  seen_tid_order = order;
}

unfoldable pub remember : Client → ℕ → Client
remember s tid =
    let order = s.seen_tid_order ++ tid ∷ [] in
    let t = record s { seen_tids = tid ∷ s.seen_tids; seen_tid_order = order } in
    if ltb max_remembered_tids (length order) then forget t order else t

unfoldable pub end_position : Fill → Decimal
end_position f = elim f.side [
  | Side.buy ↦ plus f.start_position f.sz
  | Side.sell ↦ minus f.start_position f.sz
]

abbrev pub new_position : PositionState
new_position = record { size = zero_decimal; last_fill_ms = pos 0 }

unfoldable pub move_position : Client → Fill → Client
move_position s f =
    let p : PositionState = elim (lookup same_text s.positions f.coin) [
      | none ↦ new_position
      | some p ↦ p
    ] in
    let moved =
      if le_ℤ p.last_fill_ms f.time_ms
      then record { size = end_position f; last_fill_ms = f.time_ms }
      else p in
    record s { positions = insert same_text s.positions f.coin moved }

-- The fill added to its order.
unfoldable pub add_fill : Tracked → Fill → Tracked
add_fill t f =
    let u = recompute_fills (record t {
      fill_sum = plus t.fill_sum f.sz;
      fill_notional = t.fill_notional +ℤ f.px.raw *ℤ f.sz.raw;
    }) in
    if is_terminal u.order.state
    then u
    else with_state u (
        if le_ℤ u.order.orig_sz.raw u.order.filled_sz.raw
        then OrderState.filled
        else OrderState.partially_filled)

unfoldable pub fill_order : Client → Cloid → Tracked → Fill → Client
fill_order s cloid t f =
    let h = hold s t in
    if not (f.oid == 0) && not (t.order.oid == 0) && not (f.oid == t.order.oid)
    then (if ltb f.oid t.order.oid
        then s
        else let g = set_oid h f.oid in emit s cloid (record g { tracked = add_fill g.tracked f }))
    else emit s cloid (record h { tracked = add_fill t f })

-- The loop's body for a trade that was not seen so far and is not historical.
unfoldable pub on_new_fill : Client → Fill → Client
on_new_fill s f =
    let moved = say (move_position (record s { fills = s.fills + 1 }) f) (told_fill f) in
    elim (known s f.cloid f.oid) [ none ↦ moved | some (cloid, t) ↦ fill_order moved cloid t f ]

unfoldable pub on_fill : Bool → Client → Fill → Client
on_fill historical s f =
    if contains s.seen_tids f.tid
    then s
    else let s' = remember s f.tid in if historical then s' else on_new_fill s' f

unfoldable pub fill_loop : Bool → Client → List Fill → Client
fill_loop historical s [] = s
fill_loop historical s (f ∷ fs) = fill_loop historical (on_fill historical s f) fs

unfoldable pub on_user_fills : Client → UserFillsMsg → Client
on_user_fills s msg =
    let historical = msg.is_snapshot && not s.fills_snapshot_seen in
    fill_loop historical
      (record s { fills_snapshot_seen = msg.is_snapshot || s.fills_snapshot_seen }) msg.fills

-- The orders that the venue has canceled itself, by their oids.
unfoldable pub on_non_user_cancel : Client → ℕ → Client
on_non_user_cancel s oid = elim (find_by_oid s.orders s.oid_index oid) [
  | none ↦ s
  | some (cloid, t) ↦ emit s cloid (
      hold s (
        apply_venue_status t OrderUpdateStatus.canceled (codes "canceledByVenue") zero_decimal
          zero_decimal))
]

unfoldable pub on_non_user_cancels : Client → List ℕ → Client
on_non_user_cancels s [] = s
on_non_user_cancels s (oid ∷ oids) = on_non_user_cancels (on_non_user_cancel s oid) oids

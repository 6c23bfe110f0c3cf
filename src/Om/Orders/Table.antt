-- ===== src/Om/Orders/Table.antt =====
-- src/om/ExchangeClient.cpp: the order table, its index by oid, the fill sums and `emit`.
use hyperliquid_cpp.Base.{
  ℕ, Bool, true, false, ◌&&◌, ◌||◌, not, Option, none, some, List, [], ◌∷◌, ◌++◌, ◌==◌, leb,
  if◌then◌else◌, length, drop,
}
use hyperliquid_cpp.Base.Int.{ℤ, pos, lt_ℤ, eq_ℤ, tdiv}
use hyperliquid_cpp.Base.Assoc.{lookup, insert, erase_key}
use hyperliquid_cpp.Base.Texts.{same_text}
use hyperliquid_cpp.Core.Decimal.{Decimal, from_raw}
use hyperliquid_cpp.Core.Hex.{Cloid}
use hyperliquid_cpp.Md.OrderBook.{Side}
use hyperliquid_cpp.Om.Actions.Wire.{Tif}
use hyperliquid_cpp.Om.Orders.{
  OrderState, is_terminal, Order, Emitted, Tracked, PositionState, Output, told_order, Client,
  zero_decimal, is_zero, to_int64,
}

unfoldable pub same_cloid : Cloid → Cloid → Bool
same_cloid a b = (a.high == b.high) && (a.low == b.low)

unfoldable pub same_oid : ℕ → ℕ → Bool
same_oid a b = a == b

-- `find`, and `findOrder`, which gives its order.
unfoldable pub find : List (Cloid × Tracked) → Cloid → Option Tracked
find orders cloid = lookup same_cloid orders cloid

-- The key of the entry that `findByOid` gives, with the entry.
unfoldable pub find_by_oid :
    List (Cloid × Tracked) → List (ℕ × Cloid) → ℕ → Option (Cloid × Tracked)
find_by_oid orders index oid = if oid == 0 then none else elim (lookup same_oid index oid) [
  | none ↦ none
  | some cloid ↦ elim (find orders cloid) [ none ↦ none | some t ↦ some (cloid, t) ]
]

abbrev pub new_order : Order
new_order = record {
  cloid = record { high = 0; low = 0 };
  oid = 0;
  coin = [];
  asset = 0;
  side = Side.buy;
  px = zero_decimal;
  orig_sz = zero_decimal;
  filled_sz = zero_decimal;
  avg_fill_px = zero_decimal;
  tif = Tif.gtc;
  reduce_only = false;
  is_trigger = false;
  trigger = none;
  state = OrderState.pending_new;
  cancel_pending = false;
  modify_pending = false;
  external = false;
  last_error = [];
  created_ms = pos 0;
  updated_ms = pos 0;
}

abbrev pub new_emitted : Emitted
new_emitted = record {
  state = OrderState.pending_new;
  oid = 0;
  px = zero_decimal;
  orig_sz = zero_decimal;
  filled_sz = zero_decimal;
  avg_fill_px = zero_decimal;
  cancel_pending = false;
  modify_pending = false;
  ever_emitted = false;
  last_error = [];
}

abbrev pub new_tracked : Tracked
new_tracked = record {
  order = new_order;
  fill_sum = zero_decimal;
  fill_notional = pos 0;
  ack_filled_sz = zero_decimal;
  ack_avg_px = zero_decimal;
  retired_oids = [];
  canceled_during_modify = false;
  not_found_probes = 0;
  emitted = new_emitted;
}

-- An entry of the table while a handler works on it, with the index that its changes go to.
pub record Held : Type 0 where
  pub tracked : Tracked
  pub index : List (ℕ × Cloid)

abbrev pub hold : Client → Tracked → Held
hold s t = record { tracked = t; index = s.oid_index }

-- The entry that `track` gives: the one of the cloid, or a new one.
unfoldable pub track : Client → Cloid → Held
track s cloid =
    let t : Tracked = elim (find s.orders cloid) [ none ↦ new_tracked | some known ↦ known ] in
    hold s (record t { order = record t.order { cloid = cloid } })

-- The oids kept are the last four.
unfoldable pub retire_oid : Tracked → ℕ → Tracked
retire_oid t oid =
    let all = t.retired_oids ++ oid ∷ [] in
    record t { retired_oids = if leb 5 (length all) then drop 1 all else all }

unfoldable pub larger : Decimal → Decimal → Decimal
larger a b = if lt_ℤ a.raw b.raw then b else a

unfoldable pub recompute_fills : Tracked → Tracked
recompute_fills t =
    let average =
      if is_zero t.fill_sum
      then t.ack_avg_px
      else from_raw (to_int64 (tdiv t.fill_notional t.fill_sum.raw)) in
    record t {
      order = record t.order {
        filled_sz = larger t.fill_sum t.ack_filled_sz;
        avg_fill_px = average;
      };
    }

-- What `setOid` resets where the order had another oid.
unfoldable pub next_generation : Held → Held
next_generation h = record {
  tracked = record h.tracked {
    fill_sum = zero_decimal;
    fill_notional = pos 0;
    ack_filled_sz = zero_decimal;
    ack_avg_px = zero_decimal;
    order = record h.tracked.order { filled_sz = zero_decimal; avg_fill_px = zero_decimal };
  };
  index = erase_key same_oid h.index h.tracked.order.oid;
}

unfoldable pub set_oid : Held → ℕ → Held
set_oid h oid =
    if (oid == 0) || (h.tracked.order.oid == oid)
    then h
    else let g = if h.tracked.order.oid == 0 then h else next_generation h in
      record {
        tracked = record g.tracked { order = record g.tracked.order { oid = oid } };
        index = insert same_oid g.index oid g.tracked.order.cloid;
      }

unfoldable pub state_number : OrderState → ℕ
state_number OrderState.pending_new = 0
state_number OrderState.opened = 1
state_number OrderState.partially_filled = 2
state_number OrderState.filled = 3
state_number OrderState.canceled = 4
state_number OrderState.rejected = 5

unfoldable pub same_bool : Bool → Bool → Bool
same_bool a b = if a then b else not b

unfoldable pub same_emitted : Emitted → Emitted → Bool
same_emitted a b =
    (state_number a.state == state_number b.state)
    && (a.oid == b.oid)
    && eq_ℤ a.px.raw b.px.raw
    && eq_ℤ a.orig_sz.raw b.orig_sz.raw
    && eq_ℤ a.filled_sz.raw b.filled_sz.raw
    && eq_ℤ a.avg_fill_px.raw b.avg_fill_px.raw
    && same_bool a.cancel_pending b.cancel_pending
    && same_bool a.modify_pending b.modify_pending
    && same_bool a.ever_emitted b.ever_emitted
    && same_text a.last_error b.last_error

unfoldable pub news : Order → Emitted
news o = record {
  state = o.state;
  oid = o.oid;
  px = o.px;
  orig_sz = o.orig_sz;
  filled_sz = o.filled_sz;
  avg_fill_px = o.avg_fill_px;
  cancel_pending = o.cancel_pending;
  modify_pending = o.modify_pending;
  ever_emitted = true;
  last_error = o.last_error;
}

-- The entry goes back into the table.
unfoldable pub store : Client → Cloid → Held → Client
store s cloid h = record s {
  orders = insert same_cloid s.orders cloid h.tracked;
  oid_index = h.index;
}

abbrev pub say : Client → Output → Client
say s out = record s { outputs = out ∷ s.outputs }

-- The entry once the listener is told.
unfoldable pub mark_emitted : Held → ℤ → Held
mark_emitted h now = record h {
  tracked = record h.tracked {
    emitted = news h.tracked.order;
    order = record h.tracked.order { updated_ms = now };
  };
}

-- `emit` for an entry that goes back into the table: the listener hears of changes only.
unfoldable pub emit : Client → Cloid → Held → Client
emit s cloid h =
    let g = mark_emitted h s.now in
    if same_emitted h.tracked.emitted (news h.tracked.order)
    then store s cloid h
    else say (store s cloid g) (told_order g.tracked.order)

-- `liveOrders`; an empty coin stands for all.
unfoldable pub live_orders : List (Cloid × Tracked) → List ℕ → List Order
live_orders [] coin = []
live_orders ((cloid, t) ∷ rest) coin =
    let later = live_orders rest coin in
    if not (is_terminal t.order.state) && ((length coin == 0) || same_text t.order.coin coin)
    then t.order ∷ later
    else later

unfoldable pub position : List (List ℕ × PositionState) → List ℕ → Decimal
position positions coin = elim (lookup same_text positions coin) [
  | none ↦ zero_decimal
  | some p ↦ p.size
]

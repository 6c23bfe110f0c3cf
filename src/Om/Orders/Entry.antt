-- ===== src/Om/Orders/Entry.antt =====
-- src/om/ExchangeClient.cpp: the checks of an order and `placeOrders`.
use hyperliquid_cpp.Base.{
  ℕ, ◌+◌, Bool, true, false, ◌||◌, not, Option, none, some, List, [], ◌∷◌, ◌++◌, ◌==◌,
  if◌then◌else◌, length, codes,
}
use hyperliquid_cpp.Base.Int.{ℤ, pos, eq_ℤ, le_ℤ, is_neg, magnitude}
use hyperliquid_cpp.Core.Decimal.{Decimal, RoundingMode, to_string}
use hyperliquid_cpp.Core.Hex.{Cloid, cloid_to_string, is_valid_coin_name}
use hyperliquid_cpp.Core.Errors.{ErrorKind, Error, Result, success, failure}
use hyperliquid_cpp.Md.OrderBook.{Side}
use hyperliquid_cpp.Om.Actions.Wire.{
  Tif, TriggerSpec, OrderWire, OrderGrouping, BuilderFee, uint_text,
}
use hyperliquid_cpp.Om.Actions.Order.{order_action}
use hyperliquid_cpp.Om.AssetRegistry.{AssetInfo, round_px, round_sz}
use hyperliquid_cpp.Om.AssetRegistry.Loading
use hyperliquid_cpp.Om.Orders.{OrderState, ActionKind, PendingAction, Client}
use hyperliquid_cpp.Om.Orders.Table.{find, track, store}
use hyperliquid_cpp.Om.Orders.Results.{send_action}

pub record OrderRequest : Type 0 where
  pub coin : List ℕ
  pub side : Side
  pub px : Decimal
  pub sz : Decimal
  pub tif : Tif
  pub reduce_only : Bool
  pub trigger : Option TriggerSpec
  pub cloid : Option Cloid

abbrev pub refused : List ℕ → Error
refused message = record { kind = ErrorKind.rejected; http_status = 0; message = message }

unfoldable pub check_ready : Client → Option Error
check_ready s =
    if not s.started
    then some (refused (codes "client not started"))
    else if not s.assets_loaded
    then some (refused (codes "asset metadata not loaded yet"))
    else none

unfoldable pub is_valid_px : AssetInfo → Decimal → Bool
is_valid_px info px = eq_ℤ (round_px info px RoundingMode.down).raw px.raw

unfoldable pub is_valid_sz : AssetInfo → Decimal → Bool
is_valid_sz info sz = eq_ℤ (round_sz info sz RoundingMode.down).raw sz.raw

unfoldable pub has_bad_trigger : AssetInfo → Option TriggerSpec → Bool
has_bad_trigger info none = false
has_bad_trigger info (some t) = not (is_valid_px info t.trigger_px)

unfoldable pub trigger_text : Option TriggerSpec → List ℕ
trigger_text none = []
trigger_text (some t) = to_string t.trigger_px

abbrev pub is_buy : Side → Bool
is_buy Side.buy = true
is_buy Side.sell = false

-- `std::to_string` on an int.
unfoldable pub int_text : ℤ → List ℕ
int_text n = if is_neg n then b'-' ∷ uint_text (magnitude n) else uint_text (magnitude n)

unfoldable pub wire_for : AssetInfo → OrderRequest → Cloid → Result OrderWire
wire_for asset req cloid =
    if asset.is_delisted
    then failure (refused (req.coin ++ codes " is delisted"))
    else if le_ℤ req.px.raw (pos 0) || le_ℤ req.sz.raw (pos 0)
    then failure (refused (codes "price and size must be positive"))
    else if not (is_valid_px asset req.px)
    then failure (
        refused (
          codes "invalid price "
          ++ to_string req.px
          ++ codes " for "
          ++ req.coin
          ++ codes " (nearest valid "
          ++ to_string (round_px asset req.px RoundingMode.nearest)
          ++ codes ")"))
    else if not (is_valid_sz asset req.sz)
    then failure (
        refused (
          codes "invalid size "
          ++ to_string req.sz
          ++ codes " for "
          ++ req.coin
          ++ codes " (szDecimals "
          ++ int_text asset.sz_decimals
          ++ codes ")"))
    else if has_bad_trigger asset req.trigger
    then failure (refused (codes "invalid trigger price " ++ trigger_text req.trigger))
    else success (record {
      asset = asset.asset;
      is_buy = is_buy req.side;
      px = req.px;
      sz = req.sz;
      reduce_only = req.reduce_only;
      tif = req.tif;
      trigger = req.trigger;
      cloid = some cloid;
    })

unfoldable pub build_wire : Client → OrderRequest → Cloid → Result OrderWire
build_wire s req cloid =
    if not (is_valid_coin_name req.coin)
    then failure (refused (codes "coin name contains characters that are not valid on this venue"))
    else elim (Loading.find req.coin s.assets) [
      | none ↦ failure (refused (codes "unknown coin '" ++ req.coin ++ codes "'"))
      | some asset ↦ wire_for asset req cloid
    ]

-- An order as `placeOrders` prepares it.
pub record Prepared : Type 0 where
  pub request : OrderRequest
  pub wire : OrderWire
  pub cloid : Cloid

unfoldable pub chosen_cloid : Option Cloid → Cloid → Cloid
chosen_cloid none next = next
chosen_cloid (some cloid) next = cloid

unfoldable pub prepend {ℓ} : {A : Type ℓ} → A → Result (List A) → Result (List A)
prepend a (success as') = success (a ∷ as')
prepend a (failure e) = failure e

-- The first loop. The number is the counter of `nextCloid`, which each round takes one from.
unfoldable pub prepare : Client → ℕ → List OrderRequest → ℕ × Result (List Prepared)
prepare s counter [] = (counter, success [])
prepare s counter (req ∷ reqs) =
    let next = counter + 1 in
    let cloid = chosen_cloid req.cloid (record { high = s.cloid_session; low = next }) in
    elim (find s.orders cloid) [
      | some t ↦ (next, failure (refused (codes "duplicate cloid " ++ cloid_to_string cloid)))
      | none ↦ elim (build_wire s req cloid) [
        | failure e ↦ (next, failure e)
        | success wire ↦
            let (last, rest) = prepare s next reqs in
            (last, prepend (record { request = req; wire = wire; cloid = cloid }) rest)
      ]
    ]

abbrev pub has_trigger : Option TriggerSpec → Bool
has_trigger none = false
has_trigger (some t) = true

-- The second loop.
unfoldable pub register : Client → Prepared → Client
register s p =
    let h = track s p.cloid in
    let req = p.request in
    store s p.cloid (record h {
      tracked = record h.tracked {
        order = record h.tracked.order {
          coin = req.coin;
          asset = p.wire.asset;
          side = req.side;
          px = req.px;
          orig_sz = req.sz;
          tif = req.tif;
          reduce_only = req.reduce_only;
          trigger = req.trigger;
          is_trigger = has_trigger req.trigger;
          state = OrderState.pending_new;
          created_ms = s.now;
          updated_ms = s.now;
        };
      };
    })

unfoldable pub register_all : Client → List Prepared → Client
register_all s [] = s
register_all s (p ∷ ps) = register_all (register s p) ps

abbrev pub action_of : ActionKind → List Cloid → PendingAction
action_of kind cloids = record {
  kind = kind;
  cloids = cloids;
  modify_targets = [];
  modify_trigger = none;
  via_web_socket = false;
  has_callback = false;
}

unfoldable pub builder_or : Option BuilderFee → Option BuilderFee → Option BuilderFee
builder_or none other = other
builder_or (some fee) other = some fee

unfoldable pub cloids_of : List Prepared → List Cloid
cloids_of [] = []
cloids_of (p ∷ ps) = p.cloid ∷ cloids_of ps

unfoldable pub wires_of : List Prepared → List OrderWire
wires_of [] = []
wires_of (p ∷ ps) = p.wire ∷ wires_of ps

unfoldable pub place_prepared :
    Client
    → OrderGrouping
    → Option BuilderFee
    → Result (List Prepared)
    → Client × Result (List Cloid)
place_prepared s grouping builder (failure e) = (s, failure e)
place_prepared s grouping builder (success ps) = (
  send_action (register_all s ps)
      (order_action (wires_of ps) grouping (builder_or builder s.config.builder_fee))
      (action_of ActionKind.order (cloids_of ps)),
  success (cloids_of ps),
)

unfoldable pub place_orders :
    Client → List OrderRequest → OrderGrouping → Option BuilderFee → Client × Result (List Cloid)
place_orders s reqs grouping builder = elim (check_ready s) [
  | some e ↦ (s, failure e)
  | none ↦
      if length reqs == 0
      then (s, failure (refused (codes "no orders")))
      else let (counter, prepared) = prepare s s.cloid_counter reqs in
        place_prepared (record s { cloid_counter = counter }) grouping builder prepared
]

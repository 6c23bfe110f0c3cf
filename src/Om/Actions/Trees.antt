-- ===== src/Om/Actions/Trees.antt =====
-- The tree of each action, as include/hl/om/Actions.h writes it down.
use Prim.Native.String.{String}
use hyperliquid_cpp.Base.{ℕ, Bool, true, Option, none, some, List, [], ◌∷◌, if◌then◌else◌, codes}
use hyperliquid_cpp.Base.Int.{ℤ, pos, tdiv}
use hyperliquid_cpp.Core.Decimal.{to_string}
use hyperliquid_cpp.Core.Hex.{Cloid, cloid_to_string, address_to_hex}
use hyperliquid_cpp.Om.Actions.Wire.{
  tif_to_string, TriggerSpec, OrderWire, grouping_wire, OrderGrouping, named, priority, BuilderFee,
  CancelWire, CancelByCloidWire, Target, by_oid, by_cloid, ModifyWire, tpsl_wire,
}
use hyperliquid_cpp.Om.Actions.Others.{
  Request, order_request, cancel_request, cancel_by_cloid_request, batch_modify_request,
  schedule_cancel_request, update_leverage_request, update_isolated_margin_request, noop_request,
  reserve_request_weight_request,
}
use hyperliquid_cpp.Om.Actions.Tree.{
  Value, number, signed, flag, words, array, object, Items, no_item, item, Fields, no_field, field,
}

unfoldable pub text_key : String → Value → Fields → Fields
text_key k v fs = field (codes k) v fs

unfoldable pub type_tree : OrderWire → Option TriggerSpec → Value
type_tree o none =
    object
      (text_key "limit" (object (text_key "tif" (words (tif_to_string o.tif)) no_field)) no_field)
type_tree o (some t) = object (
    text_key "trigger"
      (object (
        text_key "isMarket" (flag t.is_market) (
          text_key "triggerPx" (words (to_string t.trigger_px))
            (text_key "tpsl" (words (tpsl_wire t.kind)) no_field))))
      no_field)

unfoldable pub cloid_field : Option Cloid → Fields
cloid_field none = no_field
cloid_field (some c) = text_key "c" (words (cloid_to_string c)) no_field

-- Order wire key order: a b p s r t [c].
unfoldable pub order_tree : OrderWire → Value
order_tree o = object (
    text_key "a" (number o.asset) (
      text_key "b" (flag o.is_buy) (
        text_key "p" (words (to_string o.px)) (
          text_key "s" (words (to_string o.sz)) (
            text_key "r" (flag o.reduce_only)
              (text_key "t" (type_tree o o.trigger) (cloid_field o.cloid)))))))

unfoldable pub list_tree {ℓ} : {A : Type ℓ} → (A → Value) → List A → Items
list_tree tree [] = no_item
list_tree tree (x ∷ xs) = item (tree x) (list_tree tree xs)

unfoldable pub grouping_tree : OrderGrouping → Value
grouping_tree (named g) = words (grouping_wire g)
grouping_tree (priority rate) = object (text_key "p" (number rate) no_field)

unfoldable pub builder_field : Option BuilderFee → Fields
builder_field none = no_field
builder_field (some b) =
    text_key "builder"
      (object (
        text_key "b" (words (address_to_hex b.address))
          (text_key "f" (number b.fee_tenths_of_bps) no_field)))
      no_field

-- {"type":"order","orders":[…],"grouping":…[,"builder":{…}]}
unfoldable pub order_action_tree : List OrderWire → OrderGrouping → Option BuilderFee → Value
order_action_tree orders grouping builder = object (
    text_key "type" (words (codes "order")) (
      text_key "orders" (array (list_tree order_tree orders))
        (text_key "grouping" (grouping_tree grouping) (builder_field builder))))

unfoldable pub cancel_tree : CancelWire → Value
cancel_tree c = object (text_key "a" (number c.asset) (text_key "o" (number c.oid) no_field))

unfoldable pub fast_field : Bool → Fields
fast_field fast = if fast then text_key "f" (flag true) no_field else no_field

-- {"type":"cancel","cancels":[{"a","o"},…][,"f":true]}
unfoldable pub cancel_action_tree : List CancelWire → Bool → Value
cancel_action_tree cancels fast = object (
    text_key "type" (words (codes "cancel"))
      (text_key "cancels" (array (list_tree cancel_tree cancels)) (fast_field fast)))

unfoldable pub cancel_cloid_tree : CancelByCloidWire → Value
cancel_cloid_tree c = object (
    text_key "asset" (number c.asset) (text_key "cloid" (words (cloid_to_string c.cloid)) no_field))

-- {"type":"cancelByCloid","cancels":[{"asset","cloid"},…][,"f":true]}
unfoldable pub cancel_by_cloid_tree : List CancelByCloidWire → Bool → Value
cancel_by_cloid_tree cancels fast = object (
    text_key "type" (words (codes "cancelByCloid"))
      (text_key "cancels" (array (list_tree cancel_cloid_tree cancels)) (fast_field fast)))

unfoldable pub target_tree : Target → Value
target_tree (by_oid oid) = number oid
target_tree (by_cloid c) = words (cloid_to_string c)

unfoldable pub modify_tree : ModifyWire → Value
modify_tree m =
    object (text_key "oid" (target_tree m.target) (text_key "order" (order_tree m.order) no_field))

-- {"type":"batchModify","modifies":[{"oid","order"},…]}
unfoldable pub batch_modify_tree : List ModifyWire → Value
batch_modify_tree modifies = object (
    text_key "type" (words (codes "batchModify"))
      (text_key "modifies" (array (list_tree modify_tree modifies)) no_field))

unfoldable pub time_field : Option ℕ → Fields
time_field none = no_field
time_field (some t) = text_key "time" (number t) no_field

-- {"type":"scheduleCancel"[,"time":ms]}
unfoldable pub schedule_cancel_tree : Option ℕ → Value
schedule_cancel_tree time =
    object (text_key "type" (words (codes "scheduleCancel")) (time_field time))

-- {"type":"updateLeverage","asset","isCross","leverage"}
unfoldable pub update_leverage_tree : ℕ → Bool → ℕ → Value
update_leverage_tree asset is_cross leverage = object (
    text_key "type" (words (codes "updateLeverage")) (
      text_key "asset" (number asset)
        (text_key "isCross" (flag is_cross) (text_key "leverage" (number leverage) no_field))))

-- {"type":"updateIsolatedMargin","asset","isBuy":true,"ntli"}
unfoldable pub isolated_margin_tree : ℕ → ℤ → Value
isolated_margin_tree asset micro = object (
    text_key "type" (words (codes "updateIsolatedMargin")) (
      text_key "asset" (number asset)
        (text_key "isBuy" (flag true) (text_key "ntli" (signed micro) no_field))))

-- {"type":"noop"}
unfoldable pub noop_tree : Value
noop_tree = object (text_key "type" (words (codes "noop")) no_field)

-- {"type":"reserveRequestWeight","weight"}
unfoldable pub reserve_request_weight_tree : ℕ → Value
reserve_request_weight_tree weight = object (
    text_key "type" (words (codes "reserveRequestWeight"))
      (text_key "weight" (number weight) no_field))

unfoldable pub request_tree : Request → Value
request_tree (order_request orders grouping builder) = order_action_tree orders grouping builder
request_tree (cancel_request cancels fast) = cancel_action_tree cancels fast
request_tree (cancel_by_cloid_request cancels fast) = cancel_by_cloid_tree cancels fast
request_tree (batch_modify_request modifies) = batch_modify_tree modifies
request_tree (schedule_cancel_request time_ms) = schedule_cancel_tree time_ms
request_tree (update_leverage_request asset is_cross leverage) =
    update_leverage_tree asset is_cross leverage
request_tree (update_isolated_margin_request asset usdc) =
    isolated_margin_tree asset (tdiv usdc.raw (pos 100))
request_tree noop_request = noop_tree
request_tree (reserve_request_weight_request weight) = reserve_request_weight_tree weight

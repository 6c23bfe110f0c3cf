-- ===== src/Om/Actions/Others.antt =====
-- src/om/Actions.cpp: the actions other than orders.
use hyperliquid_cpp.Base.{
  ℕ, ◌+◌, Bool, true, not, Option, none, some, List, [], ◌∷◌, ◌++◌, if◌then◌else◌, length, codes,
}
use hyperliquid_cpp.Base.Int.{ℤ, pos, negsuc, tdiv, tmod, eq_ℤ}
use hyperliquid_cpp.Core.Decimal.{Decimal, to_string}
use hyperliquid_cpp.Core.Hex.{cloid_to_string}
use hyperliquid_cpp.Core.Errors.{rejected, Result, success, failure}
use hyperliquid_cpp.Om.MsgPack.{
  Call, map_call, array_call, str_call, boolean_call, uint_call, sint_call,
}
use hyperliquid_cpp.Om.Actions.Wire.{
  OrderWire, OrderGrouping, BuilderFee, CancelWire, CancelByCloidWire, Target, by_oid, by_cloid,
  ModifyWire, EncodedAction, uint_text, bool_text,
}
use hyperliquid_cpp.Om.Actions.Order.{
  key, encoded, is_some, pack_order, json_order, pack_list, json_list, order_action,
}

unfoldable pub pack_fast : Bool → List Call
pack_fast fast = if fast then key (codes "f") ∷ boolean_call true ∷ [] else []

unfoldable pub json_fast : Bool → List ℕ
json_fast fast = if fast then codes ",\"f\":true" else []

unfoldable pub pack_cancel : CancelWire → List Call
pack_cancel c =
    map_call 2 ∷ key (codes "a") ∷ uint_call c.asset ∷ key (codes "o") ∷ uint_call c.oid ∷ []

unfoldable pub json_cancel : CancelWire → List ℕ
json_cancel c =
    codes "{\"a\":" ++ (uint_text c.asset ++ (codes ",\"o\":" ++ (uint_text c.oid ++ codes "}")))

unfoldable pub cancel : List CancelWire → Bool → EncodedAction
cancel cancels fast =
    encoded
      (map_call (if fast then 3 else 2)
        ∷ key (codes "type")
        ∷ str_call (codes "cancel")
        ∷ key (codes "cancels")
        ∷ array_call (length cancels)
        ∷ (pack_list pack_cancel cancels ++ pack_fast fast))
      (codes "{\"type\":\"cancel\",\"cancels\":["
        ++ (json_list json_cancel 0 cancels ++ (codes "]" ++ (json_fast fast ++ codes "}"))))

unfoldable pub pack_cancel_cloid : CancelByCloidWire → List Call
pack_cancel_cloid c =
    map_call 2
    ∷ key (codes "asset")
    ∷ uint_call c.asset
    ∷ key (codes "cloid")
    ∷ str_call (cloid_to_string c.cloid)
    ∷ []

unfoldable pub json_cancel_cloid : CancelByCloidWire → List ℕ
json_cancel_cloid c =
    codes "{\"asset\":"
    ++ (uint_text c.asset ++ (codes ",\"cloid\":\"" ++ (cloid_to_string c.cloid ++ codes "\"}")))

unfoldable pub cancel_by_cloid : List CancelByCloidWire → Bool → EncodedAction
cancel_by_cloid cancels fast =
    encoded
      (map_call (if fast then 3 else 2)
        ∷ key (codes "type")
        ∷ str_call (codes "cancelByCloid")
        ∷ key (codes "cancels")
        ∷ array_call (length cancels)
        ∷ (pack_list pack_cancel_cloid cancels ++ pack_fast fast))
      (codes "{\"type\":\"cancelByCloid\",\"cancels\":["
        ++ (json_list json_cancel_cloid 0 cancels ++ (codes "]" ++ (json_fast fast ++ codes "}"))))

unfoldable pub pack_target : Target → Call
pack_target (by_oid oid) = uint_call oid
pack_target (by_cloid c) = str_call (cloid_to_string c)

unfoldable pub json_target : Target → List ℕ
json_target (by_oid oid) = uint_text oid
json_target (by_cloid c) = codes "\"" ++ (cloid_to_string c ++ codes "\"")

unfoldable pub pack_modify : ModifyWire → List Call
pack_modify m =
    map_call 2 ∷ key (codes "oid") ∷ pack_target m.target ∷ key (codes "order") ∷ pack_order m.order

unfoldable pub json_modify : ModifyWire → List ℕ
json_modify m =
    codes "{\"oid\":"
    ++ (json_target m.target ++ (codes ",\"order\":" ++ (json_order m.order ++ codes "}")))

unfoldable pub batch_modify : List ModifyWire → EncodedAction
batch_modify modifies =
    encoded
      (map_call 2
        ∷ key (codes "type")
        ∷ str_call (codes "batchModify")
        ∷ key (codes "modifies")
        ∷ array_call (length modifies)
        ∷ pack_list pack_modify modifies)
      (codes "{\"type\":\"batchModify\",\"modifies\":["
        ++ (json_list json_modify 0 modifies ++ codes "]}"))

unfoldable pub pack_time : Option ℕ → List Call
pack_time none = []
pack_time (some t) = key (codes "time") ∷ uint_call t ∷ []

unfoldable pub json_time : Option ℕ → List ℕ
json_time none = []
json_time (some t) = codes ",\"time\":" ++ uint_text t

unfoldable pub schedule_cancel : Option ℕ → EncodedAction
schedule_cancel time_ms =
    encoded
      (map_call (if is_some time_ms then 2 else 1)
        ∷ key (codes "type")
        ∷ str_call (codes "scheduleCancel")
        ∷ pack_time time_ms)
      (codes "{\"type\":\"scheduleCancel\"" ++ (json_time time_ms ++ codes "}"))

unfoldable pub update_leverage : ℕ → Bool → ℕ → EncodedAction
update_leverage asset is_cross leverage =
    encoded
      (map_call 4
        ∷ key (codes "type")
        ∷ str_call (codes "updateLeverage")
        ∷ key (codes "asset")
        ∷ uint_call asset
        ∷ key (codes "isCross")
        ∷ boolean_call is_cross
        ∷ key (codes "leverage")
        ∷ uint_call leverage
        ∷ [])
      (codes "{\"type\":\"updateLeverage\",\"asset\":"
        ++ (uint_text asset
            ++ (codes ",\"isCross\":"
                ++ (bool_text is_cross
                    ++ (codes ",\"leverage\":" ++ (uint_text leverage ++ codes "}"))))))

-- A number as `updateIsolatedMargin` writes it: the sign, and -(micro + 1) + 1 behind it.
unfoldable pub signed_text : ℤ → List ℕ
signed_text (pos n) = uint_text n
signed_text (negsuc n) = codes "-" ++ uint_text (n + 1)

unfoldable pub isolated_margin : ℕ → ℤ → EncodedAction
isolated_margin asset micro =
    encoded
      (map_call 4
        ∷ key (codes "type")
        ∷ str_call (codes "updateIsolatedMargin")
        ∷ key (codes "asset")
        ∷ uint_call asset
        ∷ key (codes "isBuy")
        ∷ boolean_call true
        ∷ key (codes "ntli")
        ∷ sint_call micro
        ∷ [])
      (codes "{\"type\":\"updateIsolatedMargin\",\"asset\":"
        ++ (uint_text asset
            ++ (codes ",\"isBuy\":true,\"ntli\":" ++ (signed_text micro ++ codes "}"))))

unfoldable pub update_isolated_margin : ℕ → Decimal → Result EncodedAction
update_isolated_margin asset usdc =
    if not (eq_ℤ (tmod usdc.raw (pos 100)) (pos 0))
    then failure (record {
      kind = rejected;
      http_status = 0;
      message =
          codes "updateIsolatedMargin: " ++ (to_string usdc ++ codes " is finer than 1e-6 USDC");
    })
    else success (isolated_margin asset (tdiv usdc.raw (pos 100)))

unfoldable pub noop : EncodedAction
noop =
    encoded (map_call 1 ∷ key (codes "type") ∷ str_call (codes "noop") ∷ [])
      (codes "{\"type\":\"noop\"}")

unfoldable pub reserve_request_weight : ℕ → EncodedAction
reserve_request_weight weight =
    encoded
      (map_call 2
        ∷ key (codes "type")
        ∷ str_call (codes "reserveRequestWeight")
        ∷ key (codes "weight")
        ∷ uint_call weight
        ∷ [])
      (codes "{\"type\":\"reserveRequestWeight\",\"weight\":" ++ (uint_text weight ++ codes "}"))

-- One call of a builder, and what it gives.
pub data Request : Type 0 where
  order_request : List OrderWire → OrderGrouping → Option BuilderFee → Request
  cancel_request : List CancelWire → Bool → Request
  cancel_by_cloid_request : List CancelByCloidWire → Bool → Request
  batch_modify_request : List ModifyWire → Request
  schedule_cancel_request : Option ℕ → Request
  update_leverage_request : ℕ → Bool → ℕ → Request
  update_isolated_margin_request : ℕ → Decimal → Request
  noop_request : Request
  reserve_request_weight_request : ℕ → Request

unfoldable pub build : Request → Result EncodedAction
build (order_request orders grouping builder) = success (order_action orders grouping builder)
build (cancel_request cancels fast) = success (cancel cancels fast)
build (cancel_by_cloid_request cancels fast) = success (cancel_by_cloid cancels fast)
build (batch_modify_request modifies) = success (batch_modify modifies)
build (schedule_cancel_request time_ms) = success (schedule_cancel time_ms)
build (update_leverage_request asset is_cross leverage) =
    success (update_leverage asset is_cross leverage)
build (update_isolated_margin_request asset usdc) = update_isolated_margin asset usdc
build noop_request = success noop
build (reserve_request_weight_request weight) = success (reserve_request_weight weight)

-- ===== src/Om/Actions/Order.antt =====
-- src/om/Actions.cpp: `packOrder`, `jsonOrder` and the order action.
use hyperliquid_cpp.Base.{
  ℕ, ◌+◌, Bool, true, false, not, Option, none, some, List, [], ◌∷◌, ◌++◌, ◌==◌, if◌then◌else◌,
  length, codes,
}
use hyperliquid_cpp.Core.Decimal.{Decimal, to_string}
use hyperliquid_cpp.Core.Hex.{Cloid, cloid_to_string, address_to_hex}
use hyperliquid_cpp.Om.MsgPack.{
  Call, map_call, array_call, str_call, boolean_call, uint_call, write_all,
}
use hyperliquid_cpp.Om.Actions.Wire.{
  tif_to_string, TriggerSpec, OrderWire, grouping_wire, OrderGrouping, named, priority, BuilderFee,
  EncodedAction, uint_text, bool_text, tpsl_wire,
}

unfoldable pub pack_decimal : Decimal → Call
pack_decimal d = str_call (to_string d)

abbrev pub key : List ℕ → Call
key s = str_call s

-- The part of `packOrder` that tells limit orders from trigger orders.
unfoldable pub pack_type : OrderWire → Option TriggerSpec → List Call
pack_type o (some t) =
    key (codes "trigger")
    ∷ map_call 3
    ∷ key (codes "isMarket")
    ∷ boolean_call t.is_market
    ∷ key (codes "triggerPx")
    ∷ pack_decimal t.trigger_px
    ∷ key (codes "tpsl")
    ∷ str_call (tpsl_wire t.kind)
    ∷ []
pack_type o none =
    key (codes "limit") ∷ map_call 1 ∷ key (codes "tif") ∷ str_call (tif_to_string o.tif) ∷ []

unfoldable pub pack_cloid : Option Cloid → List Call
pack_cloid none = []
pack_cloid (some c) = key (codes "c") ∷ str_call (cloid_to_string c) ∷ []

unfoldable pub is_some {ℓ} : {A : Type ℓ} → Option A → Bool
is_some none = false
is_some (some a) = true

unfoldable pub pack_order : OrderWire → List Call
pack_order o =
    map_call (if is_some o.cloid then 7 else 6)
    ∷ key (codes "a")
    ∷ uint_call o.asset
    ∷ key (codes "b")
    ∷ boolean_call o.is_buy
    ∷ key (codes "p")
    ∷ pack_decimal o.px
    ∷ key (codes "s")
    ∷ pack_decimal o.sz
    ∷ key (codes "r")
    ∷ boolean_call o.reduce_only
    ∷ key (codes "t")
    ∷ map_call 1
    ∷ (pack_type o o.trigger ++ pack_cloid o.cloid)

unfoldable pub json_type : OrderWire → Option TriggerSpec → List ℕ
json_type o (some t) =
    codes ",\"t\":{\"trigger\":{\"isMarket\":"
    ++ (bool_text t.is_market
        ++ (codes ",\"triggerPx\":\""
            ++ (to_string t.trigger_px
                ++ (codes "\",\"tpsl\":\"" ++ (tpsl_wire t.kind ++ codes "\"}}")))))
json_type o none = codes ",\"t\":{\"limit\":{\"tif\":\"" ++ (tif_to_string o.tif ++ codes "\"}}")

unfoldable pub json_cloid : Option Cloid → List ℕ
json_cloid none = []
json_cloid (some c) = codes ",\"c\":\"" ++ (cloid_to_string c ++ codes "\"")

unfoldable pub json_order : OrderWire → List ℕ
json_order o =
    codes "{\"a\":"
    ++ (uint_text o.asset
        ++ (codes ",\"b\":"
            ++ (bool_text o.is_buy
                ++ (codes ",\"p\":\""
                    ++ (to_string o.px
                        ++ (codes "\",\"s\":\""
                            ++ (to_string o.sz
                                ++ (codes "\",\"r\":"
                                    ++ (bool_text o.reduce_only
                                        ++ (json_type o o.trigger
                                            ++ (json_cloid o.cloid ++ codes "}")))))))))))

-- A loop over the list, element `i` first; a comma stands before every element but the first.
unfoldable pub json_list {ℓ} : {A : Type ℓ} → (A → List ℕ) → ℕ → List A → List ℕ
json_list element i [] = []
json_list element i (x ∷ xs) =
    (if not (i == 0) then codes "," else []) ++ (element x ++ json_list element (i + 1) xs)

unfoldable pub pack_list {ℓ} : {A : Type ℓ} → (A → List Call) → List A → List Call
pack_list element [] = []
pack_list element (x ∷ xs) = element x ++ pack_list element xs

unfoldable pub encoded : List Call → List ℕ → EncodedAction
encoded calls json = record { msgpack = write_all [] calls; json = json }

unfoldable pub pack_grouping : OrderGrouping → List Call
pack_grouping (priority rate) = map_call 1 ∷ key (codes "p") ∷ uint_call rate ∷ []
pack_grouping (named g) = str_call (grouping_wire g) ∷ []

unfoldable pub json_grouping : OrderGrouping → List ℕ
json_grouping (priority rate) = codes "{\"p\":" ++ (uint_text rate ++ codes "}")
json_grouping (named g) = codes "\"" ++ (grouping_wire g ++ codes "\"")

unfoldable pub pack_builder : Option BuilderFee → List Call
pack_builder none = []
pack_builder (some b) =
    key (codes "builder")
    ∷ map_call 2
    ∷ key (codes "b")
    ∷ str_call (address_to_hex b.address)
    ∷ key (codes "f")
    ∷ uint_call b.fee_tenths_of_bps
    ∷ []

unfoldable pub append_address : List ℕ → List ℕ
append_address a = codes "\"" ++ (address_to_hex a ++ codes "\"")

unfoldable pub json_builder : Option BuilderFee → List ℕ
json_builder none = []
json_builder (some b) =
    codes ",\"builder\":{\"b\":"
    ++ (append_address b.address
        ++ (codes ",\"f\":" ++ (uint_text b.fee_tenths_of_bps ++ codes "}")))

unfoldable pub order_action : List OrderWire → OrderGrouping → Option BuilderFee → EncodedAction
order_action orders grouping builder =
    encoded
      (map_call (if is_some builder then 4 else 3)
        ∷ key (codes "type")
        ∷ str_call (codes "order")
        ∷ key (codes "orders")
        ∷ array_call (length orders)
        ∷ (pack_list pack_order orders
            ++ (key (codes "grouping") ∷ (pack_grouping grouping ++ pack_builder builder))))
      (codes "{\"type\":\"order\",\"orders\":["
        ++ (json_list json_order 0 orders
            ++ (codes "],\"grouping\":"
                ++ (json_grouping grouping ++ (json_builder builder ++ codes "}")))))

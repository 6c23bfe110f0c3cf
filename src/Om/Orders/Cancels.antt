-- ===== src/Om/Orders/Cancels.antt =====
-- src/om/ExchangeClient.cpp: cancels, one by one and all, and the amendment of an order. An error
-- of `none` is the empty `Error` of a call that went through.
use hyperliquid_cpp.Base.{
  ℕ, zero, suc, Bool, true, false, ◌&&◌, ◌||◌, not, Option, none, some, List, [], ◌∷◌, ◌++◌, map,
  ◌==◌, if◌then◌else◌, length, take, drop, codes,
}
use hyperliquid_cpp.Base.Texts.{same_text}
use hyperliquid_cpp.Core.Decimal.{Decimal}
use hyperliquid_cpp.Core.Hex.{Cloid, cloid_to_string}
use hyperliquid_cpp.Core.Errors.{Error, success, failure}
use hyperliquid_cpp.Om.Actions.Wire.{TriggerSpec, CancelWire, CancelByCloidWire, by_oid}
use hyperliquid_cpp.Om.Actions.Others.{cancel, cancel_by_cloid, batch_modify}
use hyperliquid_cpp.Om.AssetRegistry.Loading
use hyperliquid_cpp.Om.Orders.{OrderState, is_terminal, Tracked, ActionKind, Client}
use hyperliquid_cpp.Om.Orders.Table.{find, find_by_oid, hold, store}
use hyperliquid_cpp.Om.Orders.Results.{send_action}
use hyperliquid_cpp.Om.Orders.Entry.{OrderRequest, refused, check_ready, build_wire, action_of}

unfoldable pub state_text : OrderState → List ℕ
state_text OrderState.pending_new = codes "PendingNew"
state_text OrderState.opened = codes "Open"
state_text OrderState.partially_filled = codes "PartiallyFilled"
state_text OrderState.filled = codes "Filled"
state_text OrderState.canceled = codes "Canceled"
state_text OrderState.rejected = codes "Rejected"

abbrev pub unknown_order : Cloid → Error
unknown_order cloid = refused (codes "unknown order " ++ cloid_to_string cloid)

abbrev pub mark_cancel : Tracked → Tracked
mark_cancel t = record t { order = record t.order { cancel_pending = true } }

unfoldable pub cancel_tracked : Client → Cloid → Tracked → Client × Option Error
cancel_tracked s cloid t =
    let o = t.order in
    let marked = store s cloid (hold s (mark_cancel t)) in
    let fast = s.config.fast_cancels && not o.is_trigger in
    let p = action_of ActionKind.cancel (cloid ∷ []) in
    if is_terminal o.state
    then (s, some (refused (codes "order is not live (" ++ state_text o.state ++ codes ")")))
    else if o.cancel_pending
    then (s, some (refused (codes "cancel already pending")))
    else if o.external
    then (if o.oid == 0 then (s, some (refused (codes "external order without oid"))) else (
      send_action marked (cancel (record { asset = o.asset; oid = o.oid } ∷ []) fast) p,
      none,
    ))
    else (
      send_action marked (cancel_by_cloid (record { asset = o.asset; cloid = cloid } ∷ []) fast) p,
      none,
    )

-- `ExchangeClient::cancel`.
unfoldable pub cancel_order : Client → Cloid → Client × Option Error
cancel_order s cloid = elim (check_ready s) [
  | some e ↦ (s, some e)
  | none ↦ elim (find s.orders cloid) [
    | none ↦ (s, some (unknown_order cloid))
    | some t ↦ cancel_tracked s cloid t
  ]
]

unfoldable pub cancel_by_oid : Client → List ℕ → ℕ → Client × Option Error
cancel_by_oid s coin oid = elim (check_ready s) [
  | some e ↦ (s, some e)
  | none ↦ elim (Loading.find coin s.assets) [
    | none ↦ (s, some (refused (codes "unknown coin '" ++ coin ++ codes "'")))
    | some info ↦
        let action = cancel (record { asset = info.asset; oid = oid } ∷ []) false in
        elim (find_by_oid s.orders s.oid_index oid) [
          | none ↦
              let nobody : Cloid = record { high = 0; low = 0 } in
              (send_action s action (action_of ActionKind.cancel (nobody ∷ [])), none)
          | some (cloid, t) ↦ (
            send_action (store s cloid (hold s (mark_cancel t))) action
                (action_of ActionKind.cancel (t.order.cloid ∷ [])),
            none,
          )
        ]
  ]
]

-- What the loop of `cancelAll` has gathered: the lists run backwards.
pub record Gathered : Type 0 where
  pub client : Client
  pub by_cloid : List (Cloid × CancelByCloidWire)
  pub by_oid : List (Cloid × CancelWire)
  pub any_trigger : Bool

unfoldable pub gather_order : Gathered → Cloid → Tracked → Gathered
gather_order g cloid t =
    let o = t.order in
    let s = store g.client cloid (hold g.client (mark_cancel t)) in
    let triggers = g.any_trigger || o.is_trigger in
    if o.external
    then (if o.oid == 0 then record g { any_trigger = triggers } else record g {
      client = s;
      any_trigger = triggers;
      by_oid = (cloid, record { asset = o.asset; oid = o.oid }) ∷ g.by_oid;
    })
    else record g {
      client = s;
      any_trigger = triggers;
      by_cloid = (cloid, record { asset = o.asset; cloid = cloid }) ∷ g.by_cloid;
    }

unfoldable pub gather_one : List ℕ → Gathered → Cloid → Gathered
gather_one coin g cloid = elim (find g.client.orders cloid) [
  | none ↦ g
  | some t ↦
      if is_terminal t.order.state
        || t.order.cancel_pending
        || (not (length coin == 0) && not (same_text t.order.coin coin))
      then g
      else gather_order g cloid t
]

unfoldable pub gather : List ℕ → Gathered → List Cloid → Gathered
gather coin g [] = g
gather coin g (cloid ∷ cloids) = gather coin (gather_one coin g cloid) cloids

unfoldable pub reversed {ℓ} : {A : Type ℓ} → List A → List A → List A
reversed acc [] = acc
reversed acc (x ∷ xs) = reversed (x ∷ acc) xs

abbrev pub max_batch_entries : ℕ
max_batch_entries = 40

-- The loops that cut the cancels into batches; as much fuel as there are entries is enough.
unfoldable pub send_by_cloid : ℕ → Bool → Client → List (Cloid × CancelByCloidWire) → Client
send_by_cloid zero fast s entries = s
send_by_cloid (suc fuel) fast s entries =
    let batch = take max_batch_entries entries in
    let action = cancel_by_cloid (map (λ e. e.1) batch) fast in
    let s' = send_action s action (action_of ActionKind.cancel (map (λ e. e.0) batch)) in
    let rest = send_by_cloid fuel fast s' (drop max_batch_entries entries) in
    if length entries == 0 then s else rest

unfoldable pub send_by_oid : ℕ → Bool → Client → List (Cloid × CancelWire) → Client
send_by_oid zero fast s entries = s
send_by_oid (suc fuel) fast s entries =
    let batch = take max_batch_entries entries in
    let action = cancel (map (λ e. e.1) batch) fast in
    let s' = send_action s action (action_of ActionKind.cancel (map (λ e. e.0) batch)) in
    let rest = send_by_oid fuel fast s' (drop max_batch_entries entries) in
    if length entries == 0 then s else rest

unfoldable pub cancel_all : Client → List ℕ → Client × Option Error
cancel_all s coin = elim (check_ready s) [
  | some e ↦ (s, some e)
  | none ↦
      let g =
        gather coin (record { client = s; by_cloid = []; by_oid = []; any_trigger = false })
          (map (λ e. e.0) s.orders) in
      let fast = s.config.fast_cancels && not g.any_trigger in
      let s' = send_by_cloid (length g.by_cloid) fast g.client (reversed [] g.by_cloid) in
      (send_by_oid (length g.by_oid) fast s' (reversed [] g.by_oid), none)
]

unfoldable pub kept_trigger : Option TriggerSpec → Option TriggerSpec → Option TriggerSpec
kept_trigger none trigger = trigger
kept_trigger (some t) trigger = some t

-- The part of `modify` behind its checks of the order.
unfoldable pub send_modify :
    Client → Cloid → Tracked → Decimal → Decimal → Option TriggerSpec → Client × Option Error
send_modify s cloid t new_px new_sz new_trigger =
    let o = t.order in
    let req : OrderRequest = record {
      coin = o.coin;
      side = o.side;
      px = new_px;
      sz = new_sz;
      tif = o.tif;
      reduce_only = o.reduce_only;
      trigger = kept_trigger new_trigger o.trigger;
      cloid = none;
    } in
    elim (build_wire s req cloid) [
      | failure e ↦ (s, some e)
      | success wire ↦
          let order = if o.external then record wire { cloid = none } else wire in
          let marked : Tracked = record t {
            order = record o { modify_pending = true };
            canceled_during_modify = false;
          } in
          (
            send_action (store s cloid (hold s marked))
                (batch_modify (record { target = by_oid o.oid; order = order } ∷ []))
                (record {
                  kind = ActionKind.modify;
                  cloids = cloid ∷ [];
                  modify_targets = (new_px, new_sz) ∷ [];
                  modify_trigger = new_trigger;
                  via_web_socket = false;
                  has_callback = false;
                }),
            none,
          )
    ]

unfoldable pub modify :
    Client → Cloid → Decimal → Decimal → Option TriggerSpec → Client × Option Error
modify s cloid new_px new_sz new_trigger = elim (check_ready s) [
  | some e ↦ (s, some e)
  | none ↦ elim (find s.orders cloid) [
    | none ↦ (s, some (unknown_order cloid))
    | some t ↦
        let o = t.order in
        if is_terminal o.state || o.cancel_pending
        then (s, some (refused (codes "order is not live or being canceled")))
        else if o.oid == 0
        then (s, some (refused (codes "order not acknowledged yet")))
        else if o.modify_pending
        then (s, some (refused (codes "modify already pending")))
        else send_modify s cloid t new_px new_sz new_trigger
  ]
]

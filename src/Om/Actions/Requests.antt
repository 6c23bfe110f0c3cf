-- ===== src/Om/Actions/Requests.antt =====
-- Every action: both encodings spell out one tree, so what is signed is what is sent.
use hyperliquid_cpp.Base.{
  ℕ, suc, ◌+◌, ◌≡◌, refl, sym, inl, inr, Bool, true, false, Option, none, some, List, [], ◌∷◌, ◌++◌,
  append_assoc, append-nil, arith, if◌then◌else◌, Bool-cases, codes,
}
use mathlib.Core.Path.{subst}
use hyperliquid_cpp.Base.Int.{ℤ, pos, negsuc, tdiv, tmod, eq_ℤ}
use hyperliquid_cpp.Om.MsgPack.{Call}
use hyperliquid_cpp.Core.Errors.{success-injective, failure-ne-success, success}
use hyperliquid_cpp.Core.Decimal.{Decimal}
use hyperliquid_cpp.Om.Actions.Wire.{
  CancelWire, CancelByCloidWire, Target, by_oid, by_cloid, ModifyWire, EncodedAction, bool_text,
}
use hyperliquid_cpp.Om.Actions.Order.{key, is_some, pack_order, json_order, pack_list}
use hyperliquid_cpp.Om.Actions.Others.{
  build, Request, order_request, cancel_request, cancel_by_cloid_request, batch_modify_request,
  schedule_cancel_request, update_leverage_request, update_isolated_margin_request, noop_request,
  reserve_request_weight_request, pack_fast, json_fast, pack_cancel, json_cancel, cancel,
  pack_cancel_cloid, json_cancel_cloid, cancel_by_cloid, pack_target, json_target, pack_modify,
  json_modify, batch_modify, pack_time, json_time, schedule_cancel, update_leverage, signed_text,
  isolated_margin, update_isolated_margin, noop, reserve_request_weight,
}
use hyperliquid_cpp.Om.Actions.Tree.{
  Value, signed, count_fields, calls, calls_fields, quoted, digits_of, json_text, json_more_fields,
  Encodes,
}
use hyperliquid_cpp.Om.Actions.Trees.{
  request_tree, text_key, cancel_tree, fast_field, cancel_action_tree, cancel_cloid_tree,
  cancel_by_cloid_tree, target_tree, modify_tree, batch_modify_tree, time_field,
  schedule_cancel_tree, update_leverage_tree, isolated_margin_tree, noop_tree,
  reserve_request_weight_tree,
}
use hyperliquid_cpp.Om.Actions.Agreement.{
  list_calls, count_list, list_json, order_calls, order_json, encoded-Encodes, order_action-Encodes,
}

by_success : (v : Value) {a b : EncodedAction} → success b ≡ success a → Encodes b v → Encodes a v
by_success v {a} {b} e h = subst (λ (t : EncodedAction). Encodes t v) (success-injective e) h

fast_calls : (fast : Bool) → pack_fast fast ≡ calls_fields (fast_field fast) []
unfolding pack_fast fast_field text_key calls
fast_calls true = refl
fast_calls false = refl

fast_json :
    (fast : Bool) (rest : List ℕ) → json_fast fast ++ rest ≡ json_more_fields (fast_field fast) rest
unfolding json_fast fast_field text_key json_text quoted bool_text
fast_json true rest = refl
fast_json false rest = refl

fast_count : (fast : Bool) → (if fast then 3 else 2) ≡ suc (suc (count_fields (fast_field fast)))
unfolding count_fields fast_field text_key
fast_count true = refl
fast_count false = refl

cancel_calls :
    (c : CancelWire) (rest : List Call) → pack_cancel c ++ rest ≡ calls (cancel_tree c) rest
unfolding pack_cancel cancel_tree text_key calls count_fields
cancel_calls c rest = refl

cancel_json :
    (c : CancelWire) (rest : List ℕ) → json_cancel c ++ rest ≡ json_text (cancel_tree c) rest
unfolding json_cancel cancel_tree text_key json_text quoted
cancel_json c rest = simp (append_assoc)

cancel-Encodes :
    (cs : List CancelWire) (fast : Bool) → Encodes (cancel cs fast) (cancel_action_tree cs fast)
unfolding cancel cancel_action_tree text_key calls count_fields json_text quoted
cancel-Encodes cs fast =
    encoded-Encodes _ _ _
      (rw
        (
          fast_count fast,
          list_calls pack_cancel cancel_tree cancel_calls cs,
          count_list cancel_tree cs,
          fast_calls fast,
        )
        refl)
      (rw (list_json json_cancel cancel_tree cancel_json cs, fast_json fast (b'}' ∷ [])) refl)

cancel_cloid_calls :
    (c : CancelByCloidWire) (rest : List Call)
    → pack_cancel_cloid c ++ rest ≡ calls (cancel_cloid_tree c) rest
unfolding pack_cancel_cloid cancel_cloid_tree text_key calls count_fields
cancel_cloid_calls c rest = refl

cancel_cloid_json :
    (c : CancelByCloidWire) (rest : List ℕ)
    → json_cancel_cloid c ++ rest ≡ json_text (cancel_cloid_tree c) rest
unfolding json_cancel_cloid cancel_cloid_tree text_key json_text quoted
cancel_cloid_json c rest = simp (append_assoc)

cancel_by_cloid-Encodes :
    (cs : List CancelByCloidWire) (fast : Bool)
    → Encodes (cancel_by_cloid cs fast) (cancel_by_cloid_tree cs fast)
unfolding cancel_by_cloid cancel_by_cloid_tree text_key calls count_fields json_text quoted
cancel_by_cloid-Encodes cs fast =
    encoded-Encodes _ _ _
      (rw
        (
          fast_count fast,
          list_calls pack_cancel_cloid cancel_cloid_tree cancel_cloid_calls cs,
          count_list cancel_cloid_tree cs,
          fast_calls fast,
        )
        refl)
      (rw
        (
          list_json json_cancel_cloid cancel_cloid_tree cancel_cloid_json cs,
          fast_json fast (b'}' ∷ []),
        )
        refl)

target_calls : (t : Target) (rest : List Call) → pack_target t ∷ rest ≡ calls (target_tree t) rest
unfolding pack_target target_tree calls
target_calls (by_oid n) rest = refl
target_calls (by_cloid c) rest = refl

target_json : (t : Target) (rest : List ℕ) → json_target t ++ rest ≡ json_text (target_tree t) rest
unfolding json_target target_tree json_text quoted
target_json (by_oid n) rest = refl
target_json (by_cloid c) rest = simp (append_assoc)

modify_calls :
    (m : ModifyWire) (rest : List Call) → pack_modify m ++ rest ≡ calls (modify_tree m) rest
unfolding pack_modify modify_tree text_key calls count_fields
modify_calls m rest =
    rw
      (
        target_calls m.target (key (codes "order") ∷ (pack_order m.order ++ rest)),
        order_calls m.order rest,
      )
      refl

modify_json :
    (m : ModifyWire) (rest : List ℕ) → json_modify m ++ rest ≡ json_text (modify_tree m) rest
unfolding json_modify modify_tree text_key json_text quoted
modify_json m rest = simp (append_assoc) (
    rw
      (
        target_json m.target (codes ",\"order\":" ++ (json_order m.order ++ (b'}' ∷ rest))),
        order_json m.order (b'}' ∷ rest),
      )
      refl)

batch_modify-Encodes : (ms : List ModifyWire) → Encodes (batch_modify ms) (batch_modify_tree ms)
unfolding batch_modify batch_modify_tree text_key calls count_fields json_text quoted
batch_modify-Encodes ms =
    encoded-Encodes _ _ _
      (rw
        (
          sym (append-nil (pack_list pack_modify ms)),
          list_calls pack_modify modify_tree modify_calls ms,
          count_list modify_tree ms,
        )
        refl)
      (rw (list_json json_modify modify_tree modify_json ms) refl)

schedule_cancel-Encodes :
    (time_ms : Option ℕ) → Encodes (schedule_cancel time_ms) (schedule_cancel_tree time_ms)
unfolding schedule_cancel schedule_cancel_tree time_field pack_time json_time is_some text_key calls
    count_fields json_text quoted
schedule_cancel-Encodes none = encoded-Encodes _ _ _ refl refl
schedule_cancel-Encodes (some t) = encoded-Encodes _ _ _ refl refl

update_leverage-Encodes :
    (asset : ℕ) (is_cross : Bool) (leverage : ℕ)
    → Encodes
        (update_leverage asset is_cross leverage)
        (update_leverage_tree asset is_cross leverage)
unfolding update_leverage update_leverage_tree text_key calls count_fields json_text quoted
update_leverage-Encodes asset is_cross leverage = encoded-Encodes _ _ _ refl refl

signed_json : (n : ℤ) (rest : List ℕ) → signed_text n ++ rest ≡ json_text (signed n) rest
unfolding signed_text json_text digits_of
signed_json (pos n) rest = refl
signed_json (negsuc n) rest = let e : n + 1 ≡ suc n = omega arith in rw e refl

isolated_margin-Encodes :
    (asset : ℕ) (micro : ℤ)
    → Encodes (isolated_margin asset micro) (isolated_margin_tree asset micro)
unfolding isolated_margin isolated_margin_tree text_key calls count_fields json_text quoted
    bool_text
isolated_margin-Encodes asset micro =
    encoded-Encodes _ _ _ refl (rw (signed_json micro (b'}' ∷ [])) refl)

update_isolated_margin-Encodes :
    (asset : ℕ) (usdc : Decimal) (a : EncodedAction)
    → update_isolated_margin asset usdc ≡ success a
    → Encodes a (isolated_margin_tree asset (tdiv usdc.raw (pos 100)))
unfolding update_isolated_margin
update_isolated_margin-Encodes asset usdc a e =
    elim (Bool-cases (eq_ℤ (tmod usdc.raw (pos 100)) (pos 0))) [
      | inl whole ↦
          by_success _ (rw whole at e) (isolated_margin-Encodes asset (tdiv usdc.raw (pos 100)))
      | inr finer ↦ absurd (failure-ne-success (rw finer at e))
    ]

noop-Encodes : Encodes noop noop_tree
unfolding noop noop_tree text_key calls count_fields json_text quoted
noop-Encodes = encoded-Encodes _ _ _ refl refl

reserve_request_weight-Encodes :
    (weight : ℕ) → Encodes (reserve_request_weight weight) (reserve_request_weight_tree weight)
unfolding reserve_request_weight reserve_request_weight_tree text_key calls count_fields json_text
    quoted
reserve_request_weight-Encodes weight = encoded-Encodes _ _ _ refl refl

-- Whatever builder is called, an action that it gives has two encodings of the same tree, the one
-- that its documentation writes down: the MessagePack bytes that are hashed and signed are those of
-- the tree, and the JSON text that is sent is that of the tree, keys in the same order.
pub build-Encodes :
    (r : Request) (a : EncodedAction) → build r ≡ success a → Encodes a (request_tree r)
unfolding build request_tree
build-Encodes (order_request orders grouping builder) a e =
    by_success _ e (order_action-Encodes orders grouping builder)
build-Encodes (cancel_request cancels fast) a e = by_success _ e (cancel-Encodes cancels fast)
build-Encodes (cancel_by_cloid_request cancels fast) a e =
    by_success _ e (cancel_by_cloid-Encodes cancels fast)
build-Encodes (batch_modify_request modifies) a e = by_success _ e (batch_modify-Encodes modifies)
build-Encodes (schedule_cancel_request time_ms) a e =
    by_success _ e (schedule_cancel-Encodes time_ms)
build-Encodes (update_leverage_request asset is_cross leverage) a e =
    by_success _ e (update_leverage-Encodes asset is_cross leverage)
build-Encodes (update_isolated_margin_request asset usdc) a e =
    update_isolated_margin-Encodes asset usdc a e
build-Encodes noop_request a e = by_success _ e noop-Encodes
build-Encodes (reserve_request_weight_request weight) a e =
    by_success _ e (reserve_request_weight-Encodes weight)

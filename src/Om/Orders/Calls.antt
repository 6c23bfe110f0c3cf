-- ===== src/Om/Orders/Calls.antt =====
-- src/om/ExchangeClient.cpp: the actions that belong to no order. The flag says whether the caller
-- waits for the result; an error of `none` is that of a call that went through.
use hyperliquid_cpp.Base.{
  ℕ, ◌-◌, ◌%◌, Bool, true, false, ◌&&◌, ◌||◌, not, Option, none, some, List, [], ◌++◌, ◌==◌, ltb,
  if◌then◌else◌, codes,
}
use hyperliquid_cpp.Base.Int.{ℤ, pos, negsuc, lt_ℤ, ◌+ℤ◌}
use hyperliquid_cpp.Core.Decimal.{Decimal, u64}
use hyperliquid_cpp.Core.Errors.{Error, success, failure}
use hyperliquid_cpp.Om.Actions.Wire.{EncodedAction, uint_text}
use hyperliquid_cpp.Om.Actions.Others
use hyperliquid_cpp.Om.AssetRegistry.{AssetInfo, Kind}
use hyperliquid_cpp.Om.AssetRegistry.Loading
use hyperliquid_cpp.Om.Orders.{ActionKind, Client}
use hyperliquid_cpp.Om.Orders.Results.{send_action}
use hyperliquid_cpp.Om.Orders.Entry.{refused, check_ready}

-- `submitAction`.
unfoldable pub submit_action : Client → EncodedAction → Bool → Client
submit_action s action waits = send_action s action (record {
  kind = ActionKind.other;
  cloids = [];
  modify_targets = [];
  modify_trigger = none;
  via_web_socket = false;
  has_callback = waits;
})

abbrev not_started : Error
not_started = refused (codes "client not started")

-- Where the call only wants a client that has started.
unfoldable pub if_started : Client → EncodedAction → Bool → Client × Option Error
if_started s action waits =
    if not s.started then (s, some not_started) else (submit_action s action waits, none)

unfoldable pub is_soon : Client → Option ℤ → Bool
is_soon s none = false
is_soon s (some time) = lt_ℤ time (s.now +ℤ pos 5000)

-- `static_cast<std::uint64_t>` of an int64_t.
unfoldable pub to_uint64 : ℤ → ℕ
to_uint64 (pos n) = n % u64
to_uint64 (negsuc n) = u64 - 1 - n % u64

unfoldable pub optional_time : Option ℤ → Option ℕ
optional_time none = none
optional_time (some time) = some (to_uint64 time)

unfoldable pub schedule_cancel_at : Client → Option ℤ → Bool → Client × Option Error
schedule_cancel_at s time waits =
    if not s.started
    then (s, some not_started)
    else if is_soon s time
    then (s, some (refused (codes "scheduleCancel time must be at least 5 s in the future")))
    else (submit_action s (Others.schedule_cancel (optional_time time)) waits, none)

abbrev is_perp_kind : Kind → Bool
is_perp_kind Kind.perp = true
is_perp_kind Kind.spot = false

-- The perpetual of a coin.
unfoldable pub find_perp : Client → List ℕ → Option AssetInfo
find_perp s coin = elim (Loading.find coin s.assets) [
  | none ↦ none
  | some info ↦ if is_perp_kind info.kind then some info else none
]

abbrev unknown_perp : List ℕ → Error
unknown_perp coin = refused (codes "unknown perp '" ++ coin ++ codes "'")

unfoldable pub set_leverage : Client → List ℕ → ℕ → Bool → Bool → Client × Option Error
set_leverage s coin leverage is_cross waits = elim (check_ready s) [
  | some e ↦ (s, some e)
  | none ↦ elim (find_perp s coin) [
    | none ↦ (s, some (unknown_perp coin))
    | some info ↦
        if (leverage == 0) || (not (info.max_leverage == 0) && ltb info.max_leverage leverage)
        then (
          s,
          some (
              refused
                (codes "leverage out of range (max " ++ uint_text info.max_leverage ++ codes ")")),
        )
        else (submit_action s (Others.update_leverage info.asset is_cross leverage) waits, none)
  ]
]

unfoldable pub set_isolated_margin : Client → List ℕ → Decimal → Bool → Client × Option Error
set_isolated_margin s coin usdc waits = elim (check_ready s) [
  | some e ↦ (s, some e)
  | none ↦ elim (find_perp s coin) [
    | none ↦ (s, some (unknown_perp coin))
    | some info ↦ elim (Others.update_isolated_margin info.asset usdc) [
      | failure e ↦ (s, some e)
      | success action ↦ (submit_action s action waits, none)
    ]
  ]
]

unfoldable pub reserve_weight : Client → ℕ → Bool → Client × Option Error
reserve_weight s weight waits = if_started s (Others.reserve_request_weight weight) waits

unfoldable pub send_noop : Client → Bool → Client × Option Error
send_noop s waits = if_started s Others.noop waits

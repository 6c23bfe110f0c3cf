-- ===== src/Om/Orders/Consistency/Calls.antt =====
-- src/om/ExchangeClient.cpp: the table and its index under actions that belong to no order.
use hyperliquid_cpp.Base.{
  ℕ, Bool, ◌&&◌, ◌||◌, not, Option, none, some, List, ◌==◌, ltb, if_cases, option_cases,
}
use hyperliquid_cpp.Base.Int.{ℤ}
use hyperliquid_cpp.Core.Decimal.{Decimal}
use hyperliquid_cpp.Core.Errors.{Error, result_cases}
use hyperliquid_cpp.Om.Actions.Wire.{EncodedAction}
use hyperliquid_cpp.Om.Actions.Others
use hyperliquid_cpp.Om.Orders.{Client}
use hyperliquid_cpp.Om.Orders.Entry.{check_ready}
use hyperliquid_cpp.Om.Orders.Calls.{
  submit_action, if_started, is_soon, schedule_cancel_at, find_perp, set_leverage,
  set_isolated_margin,
}
use hyperliquid_cpp.Om.Orders.Consistency.{IsConsistent}
use hyperliquid_cpp.Om.Orders.Consistency.Requests.{send_action-IsConsistent}
use hyperliquid_cpp.Om.Orders.Consistency.After.{IsConsistentAfter, after}

module _ (s : Client) (ok : IsConsistent s) where
  pub submit_action-IsConsistent :
      (action : EncodedAction) (waits : Bool) → IsConsistent (submit_action s action waits)
  unfolding submit_action
  submit_action-IsConsistent action waits = send_action-IsConsistent s action _ ok

  refusal : (e : Error) → IsConsistentAfter (s, some e)
  refusal e = after s (some e) ok

  submitted :
      (action : EncodedAction) (waits : Bool)
      → IsConsistentAfter {R = Option Error} (submit_action s action waits, none)
  submitted action waits = after _ none (submit_action-IsConsistent action waits)

  pub if_started-IsConsistent :
      (action : EncodedAction) (waits : Bool) → IsConsistentAfter (if_started s action waits)
  unfolding if_started
  if_started-IsConsistent action waits =
      if_cases IsConsistentAfter (not s.started) (λ e. refusal _) (λ e. submitted action waits)

  pub schedule_cancel_at-IsConsistent :
      (time : Option ℤ) (waits : Bool) → IsConsistentAfter (schedule_cancel_at s time waits)
  unfolding schedule_cancel_at
  schedule_cancel_at-IsConsistent time waits =
      if_cases IsConsistentAfter (not s.started) (λ e. refusal _)
        (λ e. if_cases IsConsistentAfter (is_soon s time) (λ e. refusal _) (λ e. submitted _ waits))

  pub set_leverage-IsConsistent :
      (coin : List ℕ) (leverage : ℕ) (is_cross waits : Bool)
      → IsConsistentAfter (set_leverage s coin leverage is_cross waits)
  unfolding set_leverage
  set_leverage-IsConsistent coin leverage is_cross waits =
      option_cases IsConsistentAfter (check_ready s)
        (λ e.
          option_cases IsConsistentAfter (find_perp s coin) (λ e. refusal _)
            (λ info e.
              if_cases IsConsistentAfter
                ((leverage == 0)
                  || (not (info.max_leverage == 0) && ltb info.max_leverage leverage))
                (λ e. refusal _) (λ e. submitted _ waits)))
        (λ e at. refusal e)

  pub set_isolated_margin-IsConsistent :
      (coin : List ℕ) (usdc : Decimal) (waits : Bool)
      → IsConsistentAfter (set_isolated_margin s coin usdc waits)
  unfolding set_isolated_margin
  set_isolated_margin-IsConsistent coin usdc waits =
      option_cases IsConsistentAfter (check_ready s)
        (λ e.
          option_cases IsConsistentAfter (find_perp s coin) (λ e. refusal _)
            (λ info e.
              result_cases IsConsistentAfter (Others.update_isolated_margin info.asset usdc) refusal
                (λ action. submitted action waits)))
        (λ e at. refusal e)

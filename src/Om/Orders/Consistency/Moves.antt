-- ===== src/Om/Orders/Consistency/Moves.antt =====
-- src/om/ExchangeClient.cpp: the place of an order under the functions that move it.
use hyperliquid_cpp.Base.{
  ℕ, ◌&&◌, ◌||◌, not, Option, none, some, List, ◌==◌, if_cases, if◌then◌else◌,
}
use hyperliquid_cpp.Base.Int.{is_neg}
use hyperliquid_cpp.Core.Decimal.{Decimal}
use hyperliquid_cpp.Core.Hex.{Cloid}
use hyperliquid_cpp.Om.Actions.Wire.{TriggerSpec}
use hyperliquid_cpp.Om.Orders.{
  OrderState, is_terminal, Tracked, OrderUpdateStatus, ActionStatusKind, ActionStatus, ActionKind,
  OpenOrder, Fill, is_zero, minus,
}
use hyperliquid_cpp.Om.Orders.Table.{Held, recompute_fills, retire_oid}
use hyperliquid_cpp.Om.Orders.Lifecycle.{
  is_pending_new, from_new, apply_ack, apply_ack_as, apply_resting, apply_filled, apply_canceled,
  is_filled_status, switch_status, apply_venue_status,
}
use hyperliquid_cpp.Om.Orders.Streams.{add_fill}
use hyperliquid_cpp.Om.Orders.Reconcile.{seed_filled, settle_listed}
use hyperliquid_cpp.Om.Orders.Results.{
  no_modify, on_batch_error, with_targets, replaced, on_amended,
}
use hyperliquid_cpp.Om.Orders.Consistency.{Fits, IsFit, set_oid-IsFit}

module _ (orders : List (Cloid × Tracked)) (key : Cloid) (index : List (ℕ × Cloid)) where
  abbrev pub IsFitting : Tracked → Type 0
  IsFitting t = Fits orders key t.order.cloid t.order.oid index

  pub from_new-IsFitting :
      (t : Tracked) (state : OrderState) → IsFitting t → IsFitting (from_new t state)
  unfolding from_new
  from_new-IsFitting t state fit =
      if_cases IsFitting (is_pending_new t.order.state) (λ e. fit) (λ e. fit)

  switch_status-IsFitting :
      (status : OrderUpdateStatus) (t : Tracked) (text : List ℕ) (px size : Decimal)
      → IsFitting t
      → IsFitting (switch_status status t text px size)
  unfolding switch_status apply_resting apply_filled apply_canceled recompute_fills
  switch_status-IsFitting OrderUpdateStatus.opened t text px size fit = fit
  switch_status-IsFitting OrderUpdateStatus.filled t text px size fit = fit
  switch_status-IsFitting OrderUpdateStatus.canceled t text px size fit = fit
  switch_status-IsFitting OrderUpdateStatus.triggered t text px size fit = fit
  switch_status-IsFitting OrderUpdateStatus.rejected t text px size fit = fit
  switch_status-IsFitting OrderUpdateStatus.unknown t text px size fit = fit

  pub apply_venue_status-IsFitting :
      (t : Tracked) (status : OrderUpdateStatus) (text : List ℕ) (px size : Decimal)
      → IsFitting t
      → IsFitting (apply_venue_status t status text px size)
  unfolding apply_venue_status
  apply_venue_status-IsFitting t status text px size fit =
      if_cases IsFitting (is_terminal t.order.state && not (is_filled_status status)) (λ e. fit)
        (λ e. switch_status-IsFitting status t text px size fit)

  pub add_fill-IsFitting : (t : Tracked) (f : Fill) → IsFitting t → IsFitting (add_fill t f)
  unfolding add_fill recompute_fills
  add_fill-IsFitting t f fit = if_cases IsFitting (is_terminal t.order.state) (λ e. fit) (λ e. fit)

  pub seed_filled-IsFitting :
      (t : Tracked) (l : OpenOrder) → IsFitting t → IsFitting (seed_filled t l)
  unfolding seed_filled recompute_fills
  seed_filled-IsFitting t l fit =
      if_cases IsFitting (is_zero (minus l.orig_sz l.sz) || is_neg (minus l.orig_sz l.sz).raw)
        (λ e. fit) (λ e. fit)

  pub on_batch_error-IsFitting :
      (kind : ActionKind) (t : Tracked) → IsFitting t → IsFitting (on_batch_error kind t)
  unfolding on_batch_error
  on_batch_error-IsFitting ActionKind.order t fit = from_new-IsFitting t OrderState.rejected fit
  on_batch_error-IsFitting ActionKind.cancel t fit = fit
  on_batch_error-IsFitting ActionKind.modify t fit = fit
  on_batch_error-IsFitting ActionKind.other t fit = fit

  pub with_targets-IsFitting :
      (t : Tracked) (target : Option (Decimal × Decimal)) (trigger : Option TriggerSpec)
      → IsFitting t
      → IsFitting (with_targets t target trigger)
  unfolding with_targets
  with_targets-IsFitting t none none fit = fit
  with_targets-IsFitting t none (some x) fit = fit
  with_targets-IsFitting t (some (p, q)) none fit = fit
  with_targets-IsFitting t (some (p, q)) (some x) fit = fit

module _ (orders : List (Cloid × Tracked)) (key : Cloid) where
  apply_ack_as-IsFit :
      (kind : ActionStatusKind) (h : Held) (st : ActionStatus)
      → IsFit orders key h
      → IsFit orders key (apply_ack_as kind h st)
  unfolding apply_ack_as recompute_fills
  apply_ack_as-IsFit ActionStatusKind.resting h st fit =
      from_new-IsFitting orders key _ _ _ (set_oid-IsFit orders key h st.oid fit)
  apply_ack_as-IsFit ActionStatusKind.filled h st fit = set_oid-IsFit orders key h st.oid fit
  apply_ack_as-IsFit ActionStatusKind.waiting_for_fill h st fit =
      from_new-IsFitting orders key _ _ _ fit
  apply_ack_as-IsFit ActionStatusKind.waiting_for_trigger h st fit =
      from_new-IsFitting orders key _ _ _ fit
  apply_ack_as-IsFit ActionStatusKind.success h st fit = from_new-IsFitting orders key _ _ _ fit
  apply_ack_as-IsFit ActionStatusKind.error h st fit = from_new-IsFitting orders key _ _ _ fit

  pub apply_ack-IsFit :
      (h : Held) (st : ActionStatus) → IsFit orders key h → IsFit orders key (apply_ack h st)
  unfolding apply_ack
  apply_ack-IsFit h st fit = apply_ack_as-IsFit st.kind h st fit

  pub settle_listed-IsFit :
      (h : Held) (l : OpenOrder) → IsFit orders key h → IsFit orders key (settle_listed h l)
  unfolding settle_listed
  settle_listed-IsFit h l fit =
      apply_venue_status-IsFitting orders key _ _ _ _ _ _ (set_oid-IsFit orders key h l.oid fit)

  replaced-IsFit : (h : Held) (oid : ℕ) → IsFit orders key h → IsFit orders key (replaced h oid)
  unfolding replaced retire_oid
  replaced-IsFit h oid fit =
      if_cases (IsFit orders key) (not (oid == 0) && not (oid == h.tracked.order.oid))
        (λ e.
          set_oid-IsFit orders key
            (record h {
              tracked =
                  if h.tracked.order.oid == 0
                  then h.tracked
                  else retire_oid h.tracked h.tracked.order.oid;
            })
            oid
            (if_cases (IsFitting orders key h.index) (h.tracked.order.oid == 0) (λ z. fit)
              (λ z. fit)))
        (λ e. fit)

  pub on_amended-IsFit :
      (h : Held) (st : ActionStatus) (target : Option (Decimal × Decimal))
      (trigger : Option TriggerSpec)
      → IsFit orders key h
      → IsFit orders key (on_amended h st target trigger)
  unfolding on_amended
  on_amended-IsFit h st target trigger fit = apply_ack-IsFit _ st (
      replaced-IsFit (record h { tracked = with_targets (no_modify h.tracked) target trigger })
        st.oid (with_targets-IsFitting orders key h.index (no_modify h.tracked) target trigger fit))

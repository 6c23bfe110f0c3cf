-- ===== src/Om/Orders/Generations/Updates.antt =====
-- src/om/ExchangeClient.cpp: the stages of orders under `onOrderUpdates`.
use hyperliquid_cpp.Base.{
  ℕ, ◌≤◌, ◌∙◌, ◌≡◌, refl, sym, inl, inr, false, ◌&&◌, ◌||◌, not, Option, none, some, List, ◌==◌,
  ltb, if_cases, arith, option_cases,
}
use mathlib.Core.Bool.{false≢true}
use hyperliquid_cpp.Core.Decimal.{Decimal}
use hyperliquid_cpp.Core.Hex.{Cloid}
use hyperliquid_cpp.Om.Orders.{
  is_terminal, Tracked, OrderUpdateStatus, OrderUpdateMsg, Fill, Client,
}
use hyperliquid_cpp.Om.Orders.Table.{
  Held, hold, retire_oid, recompute_fills, next_generation, set_oid,
}
use hyperliquid_cpp.Om.Orders.Lifecycle.{
  apply_resting, apply_filled, apply_canceled, is_filled_status, switch_status, apply_venue_status,
}
use hyperliquid_cpp.Om.Orders.Streams.{
  known_by_cloid, known, cloid_or_external, track_external, may_be_live, is_canceled_status,
  contains, on_generation, on_status, on_held, on_order_update, add_fill,
}
use hyperliquid_cpp.Om.Orders.Consistency.{none_ne_some}
use hyperliquid_cpp.Om.Orders.Consistency.Found.{OnSome, OnSome-none, OnSome-some, known-found}
use hyperliquid_cpp.Om.Orders.Generations.{
  IsLater, IsLater-refl, IsLater-trans, CanFollow, IsLaterClient, store-IsLater, emit-IsLater,
  stored-CanFollow,
}

pub set_oid-IsLater :
    (h : Held) (oid : ℕ) → h.tracked.order.oid ≤ oid → IsLater h.tracked (set_oid h oid).tracked
unfolding set_oid next_generation
set_oid-IsLater h oid le =
    let t = h.tracked in
    if_cases (λ (g : Held). IsLater t g.tracked) ((oid == 0) || (t.order.oid == oid))
      (λ e. IsLater-refl t)
      (λ e.
        if_cases
          (λ (g : Held).
            IsLater t (record g.tracked { order = record g.tracked.order { oid = oid } }))
          (t.order.oid == 0) (λ z. record { newer = le; sticky = λ e. inl refl })
          (λ z. record { newer = le; sticky = λ e. inl refl }))

switch_status-IsLater :
    (status : OrderUpdateStatus) (t : Tracked) (text : List ℕ) (px size : Decimal)
    → is_terminal t.order.state && not (is_filled_status status) ≡ false
    → IsLater t (switch_status status t text px size)
unfolding switch_status apply_resting apply_filled apply_canceled recompute_fills
switch_status-IsLater OrderUpdateStatus.filled t text px size e = record {
  newer = omega arith;
  sticky = λ y. inr refl;
}
switch_status-IsLater _ t text px size e = record {
  newer = omega arith;
  sticky = λ y. absurd (ground arith);
}

pub apply_venue_status-IsLater :
    (t : Tracked) (status : OrderUpdateStatus) (text : List ℕ) (px size : Decimal)
    → IsLater t (apply_venue_status t status text px size)
unfolding apply_venue_status
apply_venue_status-IsLater t status text px size =
    if_cases (IsLater t) (is_terminal t.order.state && not (is_filled_status status))
      (λ e. IsLater-refl t) (λ e. switch_status-IsLater status t text px size e)

pub add_fill-IsLater : (t : Tracked) (f : Fill) → IsLater t (add_fill t f)
unfolding add_fill recompute_fills
add_fill-IsLater t f =
    if_cases (IsLater t) (is_terminal t.order.state) (λ e. IsLater-refl t)
      (λ e. record { newer = omega arith; sticky = λ y. absurd (false≢true (sym e ∙ y)) })

on_generation-OnSome :
    (h : Held) (u : OrderUpdateMsg)
    → OnSome (λ (g : Held). IsLater h.tracked g.tracked) (on_generation h u)
unfolding on_generation retire_oid
on_generation-OnSome h u =
    let o = h.tracked.order in
    let P : Held → Type 0 = λ g. IsLater h.tracked g.tracked in
    if_cases (OnSome P) (not (u.oid == 0) && not (o.oid == 0) && not (u.oid == o.oid))
      (λ e.
        if_cases (OnSome P) (ltb u.oid o.oid) (λ e. OnSome-none P)
          (λ old.
            if_cases (OnSome P) (contains h.tracked.retired_oids u.oid) (λ e. OnSome-none P)
              (λ e.
                let le : o.oid ≤ u.oid = ground arith in
                if_cases (OnSome P) o.modify_pending
                  (λ e.
                    if_cases (OnSome P) (not (may_be_live u.status)) (λ e. OnSome-none P)
                      (λ e. OnSome-some P _ (
                        set_oid-IsLater (record h { tracked = retire_oid h.tracked o.oid }) u.oid
                          le)))
                  (λ e. OnSome-some P _ (set_oid-IsLater h u.oid le)))))
      (λ e.
        if_cases (OnSome P) (not (u.oid == 0) && (o.oid == 0))
          (λ e. OnSome-some P _ (set_oid-IsLater h u.oid (ground arith)))
          (λ e. OnSome-some P h (IsLater-refl h.tracked)))

follow_trans :
    (s : Client) (key : Cloid) (t u : Tracked) → CanFollow s key t → IsLater t u → CanFollow s key u
follow_trans s key t u follow tu v own at = IsLater-trans v t u (follow v own at) tu

on_status-IsLater :
    (s : Client) (key : Cloid) (h : Held) (u : OrderUpdateMsg)
    → CanFollow s key h.tracked
    → IsLaterClient s (on_status s key h u)
unfolding on_status
on_status-IsLater s key h u follow =
    if_cases (IsLaterClient s)
      (h.tracked.order.modify_pending
        && (u.oid == h.tracked.order.oid)
        && is_canceled_status u.status)
      (λ e. store-IsLater s key _ follow)
      (λ e.
        let t = apply_venue_status h.tracked u.status u.status_text u.limit_px u.orig_sz in
        emit-IsLater s key (record h { tracked = t })
          (follow_trans s key h.tracked t follow
            (apply_venue_status-IsLater h.tracked u.status u.status_text u.limit_px u.orig_sz)))

on_held-IsLater :
    (s : Client) (key : Cloid) (h : Held) (u : OrderUpdateMsg)
    → CanFollow s key h.tracked
    → IsLaterClient s (on_held s key h u)
unfolding on_held OnSome
on_held-IsLater s key h u follow =
    option_cases (IsLaterClient s) (on_generation h u) (λ e. store-IsLater s key h follow)
      (λ g e.
        on_status-IsLater s key g u
          (follow_trans s key h.tracked g.tracked follow (on_generation-OnSome h u g e)))

-- A message that names no order of the table gets a key that no order of the client's own has.
unknown-CanFollow :
    (s : Client) (cloid : Option Cloid) (oid : ℕ) (u : Tracked)
    → known s cloid oid ≡ none
    → CanFollow s (cloid_or_external cloid oid) u
unfolding known known_by_cloid cloid_or_external
unknown-CanFollow s none oid u e t own at = absurd (own refl)
unknown-CanFollow s (some c) oid u e t own at =
    let hit : known s (some c) oid ≡ some (c, t) = rw (known, known_by_cloid, at) refl in
    absurd (none_ne_some (sym e ∙ hit))

pub on_order_update-IsLater :
    (s : Client) (u : OrderUpdateMsg) → IsLaterClient s (on_order_update s u)
unfolding on_order_update
on_order_update-IsLater s u =
    option_cases (IsLaterClient s) (known s u.cloid u.oid)
      (λ e.
        let key = cloid_or_external u.cloid u.oid in
        let h = track_external s u key in
        on_held-IsLater s key h u (unknown-CanFollow s u.cloid u.oid h.tracked e))
      (λ kt e.
        on_held-IsLater s kt.0 (hold s kt.1) u (
          stored-CanFollow s kt.0 kt.1 kt.1 (known-found s u.cloid u.oid kt e) (IsLater-refl kt.1)))

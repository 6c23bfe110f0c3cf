-- ===== src/Om/Orders/Generations.antt =====
-- src/om/ExchangeClient.cpp: the oid and the terminal state of an order, earlier and later.
pub mod Updates
pub mod Messages
use hyperliquid_cpp.Base.{
  ℕ, zero, suc, ◌+◌, ◌≤◌, ◌<◌, ◌∙◌, ap, ◌≡◌, ◌≢◌, ◌⊎◌, refl, sym, inl, inr, Bool, true, false, ◌&&◌,
  ◌||◌, not, Option, none, some, List, [], ◌∷◌, ◌==◌, ltb, if_cases, arith, option_cases,
  Option-cases, ◌++◌, length, Bool-cases, if◌then◌else◌,
}
use mathlib.Core.Path.{subst}
use mathlib.Core.Option.{some-injective}
use hyperliquid_cpp.Base.Int.{le_ℤ}
use hyperliquid_cpp.Base.Assoc.{lookup, insert, lookup-insert, lookup-insert_ne}
use hyperliquid_cpp.Core.Decimal.{Decimal}
use hyperliquid_cpp.Core.Hex.{Cloid}
use hyperliquid_cpp.Om.Orders.{
  OrderState, is_terminal, Order, Tracked, OrderUpdateStatus, OrderUpdateMsg, Fill, UserFillsMsg,
  Client, max_remembered_tids, external_cloid_high,
}
use hyperliquid_cpp.Om.Orders.Table.{
  same_cloid, same_oid, find, find_by_oid, Held, hold, track, retire_oid, recompute_fills,
  next_generation, set_oid, store, emit, mark_emitted, same_emitted, news,
}
use hyperliquid_cpp.Om.Orders.Lifecycle.{
  apply_resting, apply_filled, apply_canceled, is_filled_status, switch_status, apply_venue_status,
}
use hyperliquid_cpp.Om.Orders.Streams.{
  known_by_cloid, known, cloid_or_external, track_external, may_be_live, is_canceled_status,
  contains, on_generation, on_status, on_held, on_order_update, on_order_updates, forget, remember,
  move_position, add_fill, fill_order, on_new_fill, on_fill, fill_loop, on_user_fills,
  on_non_user_cancel, on_non_user_cancels,
}
use hyperliquid_cpp.Om.Orders.Consistency.{same_cloid_eq, same_cloid_refl, none_ne_some}
use hyperliquid_cpp.Om.Orders.Consistency.Found.{
  OnSome, OnSome-none, OnSome-some, IsStored, find_by_oid-found, known-found,
}

-- The order has not gone back to an older oid, and a terminal state has stayed or become `Filled`.
pub record IsLaterStage (oid : ℕ) (state : OrderState) (oid' : ℕ) (state' : OrderState)
    : Type 0 where
  pub newer : oid ≤ oid'
  pub sticky : is_terminal state ≡ true → (state' ≡ state) ⊎ (state' ≡ OrderState.filled)

abbrev pub IsLater : Tracked → Tracked → Type 0
IsLater t u = IsLaterStage t.order.oid t.order.state u.order.oid u.order.state

pub IsLater-refl : (t : Tracked) → IsLater t t
IsLater-refl t = record { newer = omega arith; sticky = λ e. inl refl }

pub IsLater-trans : (t u v : Tracked) → IsLater t u → IsLater u v → IsLater t v
IsLater-trans t u v a b = record {
  newer = omega (arith, a.newer, b.newer);
  sticky = λ e. elim (a.sticky e) [
    | inl same ↦ elim (b.sticky (ap is_terminal same ∙ e)) [
      | inl again ↦ inl (again ∙ same)
      | inr filled ↦ inr filled
    ]
    | inr filled ↦ elim (b.sticky (ap is_terminal filled)) [
      | inl again ↦ inr (again ∙ filled)
      | inr also ↦ inr also
    ]
  ];
}

-- The same for every order under a cloid of this client's own.
unfoldable pub IsLaterTable : List (Cloid × Tracked) → List (Cloid × Tracked) → Type 0
IsLaterTable before orders =
    (c : Cloid) (t : Tracked)
    → c.high ≢ external_cloid_high
    → find before c ≡ some t
    → (u : Tracked) × (find orders c ≡ some u) × IsLater t u

IsLaterTable-refl : (orders : List (Cloid × Tracked)) → IsLaterTable orders orders
unfolding IsLaterTable
IsLaterTable-refl orders c t own at = (t, at, IsLater-refl t)

IsLaterTable-trans :
    (a b c : List (Cloid × Tracked)) → IsLaterTable a b → IsLaterTable b c → IsLaterTable a c
unfolding IsLaterTable
IsLaterTable-trans a b c ab bc key t own at =
    let (u, u_at, tu) = ab key t own at in
    let (v, v_at, uv) = bc key u own u_at in (v, v_at, IsLater-trans t u v tu uv)

-- The entry in hand is later than the one under the key, if that is the client's own.
abbrev pub CanFollow : Client → Cloid → Tracked → Type 0
CanFollow s key u =
    (t : Tracked) → key.high ≢ external_cloid_high → find s.orders key ≡ some t → IsLater t u

insert-IsLaterTable :
    (s : Client) (key : Cloid) (u : Tracked)
    → CanFollow s key u
    → IsLaterTable s.orders (insert same_cloid s.orders key u)
unfolding IsLaterTable find
insert-IsLaterTable s key u follow c t own at = elim (Bool-cases (same_cloid key c)) [
  | inl y ↦
      let e = same_cloid_eq key c y in
      (
        u,
        ap (lookup same_cloid (insert same_cloid s.orders key u)) (sym e)
            ∙ lookup-insert same_cloid same_cloid_eq same_cloid_refl s.orders key u,
        follow t (λ z. own (ap (λ (k : Cloid). k.high) (sym e) ∙ z))
            (ap (lookup same_cloid s.orders) e ∙ at),
      )
  | inr n ↦ (
    t,
    lookup-insert_ne same_cloid same_cloid_eq same_cloid_refl s.orders key c u n ∙ at,
    IsLater-refl t,
  )
]

-- `store` and `emit` of an entry.
unfoldable pub IsLaterClient : Client → Client → Type 0
IsLaterClient s s' = IsLaterTable s.orders s'.orders

pub IsLaterClient-refl : (s : Client) → IsLaterClient s s
unfolding IsLaterClient
IsLaterClient-refl s = IsLaterTable-refl s.orders

pub IsLaterClient-trans :
    (a b c : Client) → IsLaterClient a b → IsLaterClient b c → IsLaterClient a c
unfolding IsLaterClient
IsLaterClient-trans a b c ab bc = IsLaterTable-trans a.orders b.orders c.orders ab bc

pub store-IsLater :
    (s : Client) (key : Cloid) (h : Held)
    → CanFollow s key h.tracked
    → IsLaterClient s (store s key h)
unfolding store IsLaterClient
store-IsLater s key h follow = insert-IsLaterTable s key h.tracked follow

mark-CanFollow :
    (s : Client) (key : Cloid) (h : Held)
    → CanFollow s key h.tracked
    → CanFollow s key (mark_emitted h s.now).tracked
unfolding mark_emitted
mark-CanFollow s key h follow = follow

pub emit-IsLater :
    (s : Client) (key : Cloid) (h : Held)
    → CanFollow s key h.tracked
    → IsLaterClient s (emit s key h)
unfolding emit store IsLaterClient
emit-IsLater s key h follow =
    if_cases (IsLaterClient s) (same_emitted h.tracked.emitted (news h.tracked.order))
      (λ e. insert-IsLaterTable s key h.tracked follow)
      (λ e. insert-IsLaterTable s key _ (mark-CanFollow s key h follow))

-- The entry that stands under the key can be followed by a later one.
pub stored-CanFollow :
    (s : Client) (key : Cloid) (t u : Tracked)
    → IsStored s (key, t)
    → IsLater t u
    → CanFollow s key u
stored-CanFollow s key t u at later v own at' =
    subst (λ (x : Tracked). IsLater x u) (some-injective _ _ (sym at ∙ at')) later

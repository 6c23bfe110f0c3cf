-- ===== src/Om/Orders/Consistency/Eviction.antt =====
-- src/om/ExchangeClient.cpp: the table and its index under the eviction of old orders.
use hyperliquid_cpp.Base.{
  ℕ, ◌∙◌, ap, ◌≡◌, sym, inl, inr, ◌&&◌, some, List, [], ◌∷◌, ◌==◌, if_cases, arith, option_cases,
  Bool-cases, if◌then◌else◌, map,
}
use hyperliquid_cpp.Base.Int.{lt_ℤ, ◌-ℤ◌}
use hyperliquid_cpp.Base.Assoc.{lookup, erase_key, lookup-erase_key, lookup-erase_key_ne}
use hyperliquid_cpp.Core.Hex.{Cloid}
use hyperliquid_cpp.Om.Orders.{is_terminal, Tracked, Client}
use hyperliquid_cpp.Om.Orders.Table.{same_cloid, same_oid, find}
use hyperliquid_cpp.Om.Orders.Reconcile.{evict_one, evict_each, evict}
use hyperliquid_cpp.Om.Orders.Consistency.{
  Others, erase_key-Others, zero-Others, IsConsistent, IsAgreed, none_ne_some, same_cloid_eq,
  same_cloid_refl, hold-IsFit,
}

dropped-IsAgreed :
    (orders : List (Cloid × Tracked)) (key : Cloid) (index : List (ℕ × Cloid))
    → ((c : Cloid) (t : Tracked) → find orders c ≡ some t → t.order.cloid ≡ c)
    → Others orders key index
    → IsAgreed (erase_key same_cloid orders key) index
unfolding find Others
dropped-IsAgreed orders key index keys others = record {
  keys = λ c t at. elim (Bool-cases (same_cloid key c)) [
    | inl y ↦ absurd (
        none_ne_some (
          sym (lookup-erase_key same_cloid same_cloid_eq same_cloid_refl orders key)
          ∙ ap (lookup same_cloid (erase_key same_cloid orders key)) (same_cloid_eq key c y)
          ∙ at))
    | inr n ↦
        keys c t
          (sym (lookup-erase_key_ne same_cloid same_cloid_eq same_cloid_refl orders key c n) ∙ at)
  ];
  index = λ oid c at.
      let (some_oid, (n, (t, found, same))) = others oid c at in
      (
        some_oid,
        (
          t,
          lookup-erase_key_ne same_cloid same_cloid_eq same_cloid_refl orders key c n ∙ found,
          same,
        ),
      );
}

module _ (s : Client) (key : Cloid) (ok : IsConsistent s) where
  -- The entry goes out of the table, and its oid out of the index.
  drop-IsConsistent :
      (t : Tracked)
      → find s.orders key ≡ some t
      → IsAgreed
          (erase_key same_cloid s.orders key)
          (if t.order.oid == 0 then s.oid_index else erase_key same_oid s.oid_index t.order.oid)
  unfolding find
  drop-IsConsistent t at =
      if_cases (IsAgreed (erase_key same_cloid s.orders key)) (t.order.oid == 0)
        (λ z.
          dropped-IsAgreed s.orders key s.oid_index ok.keys
            (zero-Others s.orders key _ _ s.oid_index (ground arith) (hold-IsFit s key ok t at)))
        (λ n.
          dropped-IsAgreed s.orders key _ ok.keys
            (erase_key-Others s.orders key _ _ s.oid_index (hold-IsFit s key ok t at)))

  pub evict_one-IsConsistent : IsConsistent (evict_one s key)
  unfolding evict_one
  evict_one-IsConsistent =
      option_cases IsConsistent (find s.orders key) (λ e. ok)
        (λ t at.
          if_cases IsConsistent
            (is_terminal t.order.state
              && lt_ℤ t.order.updated_ms (s.now -ℤ s.config.terminal_order_retention_ms))
            (λ e. drop-IsConsistent t at) (λ e. ok))

evict_each-IsConsistent :
    (s : Client) (keys : List Cloid) → IsConsistent s → IsConsistent (evict_each s keys)
unfolding evict_each
evict_each-IsConsistent s [] ok = ok
evict_each-IsConsistent s (key ∷ keys) ok =
    evict_each-IsConsistent (evict_one s key) keys (evict_one-IsConsistent s key ok)

pub evict-IsConsistent : (s : Client) → IsConsistent s → IsConsistent (evict s)
unfolding evict
evict-IsConsistent s ok = evict_each-IsConsistent s (map (λ e. e.0) s.orders) ok

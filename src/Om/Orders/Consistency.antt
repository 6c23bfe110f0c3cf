-- ===== src/Om/Orders/Consistency.antt =====
-- src/om/ExchangeClient.cpp: the order table and its index by oid, where an entry goes back into the
-- table. Places is about an entry in hand, and the other children are about the handlers.
pub mod Found
pub mod Moves
pub mod Handlers
pub mod Answers
pub mod Eviction
pub mod Requests
pub mod After
pub mod CancelAll
pub mod Entries
pub mod Calls
pub mod Readiness
pub mod Steps
mod Places
unfoldable pub use Places.*
use hyperliquid_cpp.Base.{
  ℕ, zero, suc, ◌+◌, ◌≡◌, refl, sym, ap, ◌∙◌, ◌⊎◌, ◌≢◌, inl, inr, Bool, true, false, ◌&&◌, ◌||◌,
  not, Option, none, some, List, [], ◌∷◌, arith, ◌==◌, ==_iff, if◌then◌else◌, Bool-cases, if_cases,
  Option-cases, option_cases,
}
use mathlib.Core.Path.{subst}
use mathlib.Core.Bool.{false≢true}
use mathlib.Core.Option.{some-injective}
use hyperliquid_cpp.Base.Assoc.{
  lookup, insert, erase_key, lookup-insert, lookup-insert_ne, lookup-erase_key, lookup-erase_key_ne,
}
use hyperliquid_cpp.Core.Hex.{Cloid}
use hyperliquid_cpp.Om.Orders.{OrderState, Order, Tracked, Client}
use hyperliquid_cpp.Om.Orders.Table.{
  same_cloid, same_oid, find, find_by_oid, Held, hold, track, set_oid, next_generation, store, emit,
  new_tracked, mark_emitted, same_emitted, news,
}

-- The entry in hand goes back into a consistent table.
pub store-IsConsistent :
    (s : Client) (key : Cloid) (h : Held)
    → IsConsistent s
    → IsFit s.orders key h
    → IsConsistent (store s key h)
unfolding store find Fits
store-IsConsistent s key h ok fit = record {
  keys = λ c t at. elim (Bool-cases (same_cloid key c)) [
    | inl y ↦
        let e = same_cloid_eq key c y in
        let first =
          sym (lookup-insert same_cloid same_cloid_eq same_cloid_refl s.orders key h.tracked)
          ∙ ap (lookup same_cloid (insert same_cloid s.orders key h.tracked)) e
          ∙ at in
        ap (λ (x : Tracked). x.order.cloid) (sym (some-injective _ _ first)) ∙ fit.0 ∙ e
    | inr n ↦ ok.keys c t (
        sym (lookup-insert_ne same_cloid same_cloid_eq same_cloid_refl s.orders key c h.tracked n)
        ∙ at)
  ];
  index = λ oid c at.
      let (some_oid, cases) = fit.1 oid c at in
      (
        some_oid,
        elim cases [
          | inl k ↦ (
            h.tracked,
            ap (lookup same_cloid (insert same_cloid s.orders key h.tracked)) k.0
                ∙ lookup-insert same_cloid same_cloid_eq same_cloid_refl s.orders key h.tracked,
            k.1,
          )
          | inr other ↦
              let (n, (t, found, same)) = other in
              (
                t,
                lookup-insert_ne same_cloid same_cloid_eq same_cloid_refl s.orders key c h.tracked n
                    ∙ found,
                same,
              )
        ],
      );
}

pub emit-IsConsistent :
    (s : Client) (key : Cloid) (h : Held)
    → IsConsistent s
    → IsFit s.orders key h
    → IsConsistent (emit s key h)
unfolding emit mark_emitted
emit-IsConsistent s key h ok fit =
    if_cases IsConsistent (same_emitted h.tracked.emitted (news h.tracked.order))
      (λ same. store-IsConsistent s key h ok fit)
      (λ other. store-IsConsistent s key (mark_emitted h s.now) ok fit)

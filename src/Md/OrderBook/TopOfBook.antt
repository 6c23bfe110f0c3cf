-- ===== src/Md/OrderBook/TopOfBook.antt =====
-- What an accepted bbo update leaves: an uncrossed book with the update on top.
use hyperliquid_cpp.Base.{
  ℕ, zero, suc, ◌≡◌, refl, ap, ◌∙◌, Bool, true, false, List, [], ◌∷◌, some, take, arith, All,
  Bool-cases, inl, inr, ◌==◌, get_or,
}
use hyperliquid_cpp.Base.Int.{ℤ, ◌≤ℤ◌, ◌<ℤ◌, lt_ℤ}
use hyperliquid_cpp.Core.Decimal.{Decimal}
use hyperliquid_cpp.Md.OrderBook.{
  BookLevel, Levels, OrderBook, BboMsg, view, empty_level, apply_bbo, emptied, overlay_top,
  drop_crossing, crosses, best_bid, best_ask, is_valid,
}
use hyperliquid_cpp.Md.OrderBook.Spec.{overlay, uncrossed, drop_same, drop_better}
use hyperliquid_cpp.Md.OrderBook.Refinement.{view-overlay_top}
use hyperliquid_cpp.Md.OrderBook.Compaction.{view-drop_crossing}
use hyperliquid_cpp.Md.OrderBook.Sorted.{
  IsSorted, uncrossed-Better, All-uncrossed, overlay-IsSorted,
}
use hyperliquid_cpp.Md.OrderBook.Invariant.{IsGood, IsBook, emptied-IsGood, overlay_top-IsGood}

-- Every visible bid is strictly below every visible ask.
abbrev pub IsUncrossed : OrderBook → Type 0
IsUncrossed b = All (λ x. All (λ y. x.px.raw <ℤ y.px.raw) (view b.asks)) (view b.bids)

no_asks : (xs : List BookLevel) → All (λ x. All {A = BookLevel} (λ y. x.px.raw <ℤ y.px.raw) []) xs
no_asks [] = tt
no_asks (x ∷ xs) = (tt, no_asks xs)

below_each :
    (x p : ℤ) (ys : List BookLevel)
    → x <ℤ p
    → All (λ y. p ≤ℤ y.px.raw) ys
    → All (λ y. x <ℤ y.px.raw) ys
below_each x p [] h k = tt
below_each x p (y ∷ ys) h k = (omega (arith, k.0), below_each x p ys h k.1)

separated :
    (p : ℤ) (xs ys : List BookLevel)
    → All (λ x. x.px.raw <ℤ p) xs
    → All (λ y. p ≤ℤ y.px.raw) ys
    → All (λ x. All (λ y. x.px.raw <ℤ y.px.raw) ys) xs
separated p [] ys h k = tt
separated p (x ∷ xs) ys h k = (below_each x.px.raw p ys h.0 k, separated p xs ys h.1 k)

weaken : (p : ℤ) (ys : List BookLevel) → All (λ m. p <ℤ m.px.raw) ys → All (λ m. p ≤ℤ m.px.raw) ys
weaken p [] h = tt
weaken p (y ∷ ys) h = (omega (arith, h.0), weaken p ys h.1)

-- The new best ask is at most every ask.
overlay-least :
    (best : BookLevel) (ls : List BookLevel)
    → IsSorted false ls
    → All (λ m. best.px.raw ≤ℤ m.px.raw) (overlay false best ls)
overlay-least best ls h = unfold overlay in ground_top (overlay-IsSorted false best ls h)
  where
    ground_top :
        IsSorted false (best ∷ take 63 (drop_same best.px (drop_better false best.px ls)))
        → All
            (λ m. best.px.raw ≤ℤ m.px.raw)
            (best ∷ take 63 (drop_same best.px (drop_better false best.px ls)))
    ground_top s = (omega arith, weaken best.px.raw _ s.0)

-- One side after both steps, as a list.
view-updated :
    (is_bid : Bool) (s : Levels) (best : BookLevel) (limit : Decimal)
    → IsGood is_bid s
    → view (drop_crossing (overlay_top s best is_bid) limit is_bid)
      ≡ uncrossed is_bid limit (overlay is_bid best (view s))
view-updated is_bid s best limit g =
    (view-drop_crossing (overlay_top s best is_bid) limit is_bid
      (overlay_top-IsGood is_bid s best g).side).0
    ∙ ap (uncrossed is_bid limit) (view-overlay_top s best is_bid g.side).0

-- An emptied side stays empty.
view-emptied :
    (is_bid : Bool) (s : Levels) (limit : Decimal)
    → IsGood is_bid s
    → view (drop_crossing (emptied s) limit is_bid) ≡ []
unfolding uncrossed
view-emptied is_bid s limit g =
    (view-drop_crossing (emptied s) limit is_bid (emptied-IsGood is_bid s g).side).0

module _ (b : OrderBook) (msg : BboMsg) (v : IsBook b)
    (fresh : lt_ℤ msg.time_ms b.snapshot_time_ms ≡ false) where
  -- The visible sides after an accepted update.
  abbrev pub ShowsBids : List BookLevel → Type 0
  ShowsBids ls = view (apply_bbo b msg).0.bids ≡ ls

  abbrev pub ShowsAsks : List BookLevel → Type 0
  ShowsAsks ls = view (apply_bbo b msg).0.asks ≡ ls

  both_sides :
      msg.has_bid ≡ true
      → msg.has_ask ≡ true
      → ShowsBids (uncrossed true msg.ask.px (overlay true msg.bid (view b.bids)))
        × ShowsAsks (uncrossed false msg.bid.px (overlay false msg.ask (view b.asks)))
  unfolding apply_bbo
  both_sides hb ha =
      rw (fresh, hb, ha)
        (
          view-updated true b.bids msg.bid msg.ask.px v.bids,
          view-updated false b.asks msg.ask msg.bid.px v.asks,
        )

  no_bid : msg.has_bid ≡ false → ShowsBids []
  unfolding apply_bbo
  no_bid hb = elim (Bool-cases msg.has_ask) [
    | inl ha ↦ rw (fresh, hb, ha) (view-emptied true b.bids msg.ask.px v.bids)
    | inr ha ↦ rw (fresh, hb, ha) refl
  ]

  no_ask : msg.has_ask ≡ false → ShowsAsks []
  unfolding apply_bbo
  no_ask ha = elim (Bool-cases msg.has_bid) [
    | inl hb ↦ rw (fresh, hb, ha) (view-emptied false b.asks msg.bid.px v.asks)
    | inr hb ↦ rw (fresh, hb, ha) refl
  ]

  -- An update that is not older than the last snapshot leaves no bid at or above an ask, whatever
  -- the book and the update held before.
  pub apply_bbo-IsUncrossed : IsUncrossed (apply_bbo b msg).0
  apply_bbo-IsUncrossed = elim (Bool-cases msg.has_bid) [
    | inr hb ↦ rw (no_bid hb) tt
    | inl hb ↦ elim (Bool-cases msg.has_ask) [
      | inr ha ↦ rw (no_ask ha) (no_asks _)
      | inl ha ↦
          let (eb, ea) = both_sides hb ha in
          rw (eb, ea)
            (separated msg.ask.px.raw _ _ (uncrossed-Better true msg.ask.px _) (
              All-uncrossed false _ msg.bid.px _
                (overlay-least msg.ask (view b.asks) v.asks.sorted)))
    ]
  ]

first_visible :
    (n : ℕ) (xs : List BookLevel) (l : BookLevel) (ls : List BookLevel)
    → take n xs ≡ l ∷ ls
    → ((n == 0) ≡ false) × (get_or xs 0 empty_level ≡ l)
first_visible zero xs l ls e = ground arith
first_visible (suc n) [] l ls e = ground arith
first_visible (suc n) (x ∷ xs) l ls e = ground arith

uncrossed-top :
    (is_bid : Bool) (limit : Decimal) (l : BookLevel) (ls : List BookLevel)
    → crosses is_bid limit l ≡ false
    → uncrossed is_bid limit (l ∷ ls) ≡ l ∷ uncrossed is_bid limit ls
unfolding uncrossed
uncrossed-top is_bid limit l ls h = rw h

-- An update with both prices that is not crossed itself and not older than the last snapshot
-- becomes the top of the book on both sides, and the book is valid.
pub apply_bbo-top :
    (b : OrderBook) (msg : BboMsg)
    → IsBook b
    → lt_ℤ msg.time_ms b.snapshot_time_ms ≡ false
    → msg.has_bid ≡ true
    → msg.has_ask ≡ true
    → msg.bid.px.raw <ℤ msg.ask.px.raw
    → (best_bid (apply_bbo b msg).0 ≡ some msg.bid)
      × (best_ask (apply_bbo b msg).0 ≡ some msg.ask)
      × (is_valid (apply_bbo b msg).0 ≡ true)
unfolding best_bid best_ask is_valid overlay
apply_bbo-top b msg v fresh hb ha h =
    let (eb, ea) = both_sides b msg v fresh hb ha in
    let (nb, tb) =
      first_visible _ _ _ _ (eb ∙ uncrossed-top true msg.ask.px msg.bid _ (ground arith)) in
    let (na, ta) =
      first_visible _ _ _ _ (ea ∙ uncrossed-top false msg.bid.px msg.ask _ (ground arith)) in
    (rw (nb, tb), rw (na, ta), rw (nb, na, tb, ta) (ground arith))

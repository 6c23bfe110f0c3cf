-- ===== src/Md/OrderBook/Refinement.antt =====
-- The array operations of a side implement the functions on the visible levels.
use hyperliquid_cpp.Base.{
  ℕ, suc, ◌+◌, ◌-◌, ◌≤◌, ◌<◌, ◌≡◌, sym, ap, ◌∙◌, Bool, true, false, ◌&&◌, List, [], ◌∷◌, ltb, take,
  drop, arith, Bool-cases, inl, inr, ltb→lt, drop-uncons, take_all, length-take,
}
use hyperliquid_cpp.Base.Int.{eq_ℤ}
use hyperliquid_cpp.Md.OrderBook.{
  BookLevel, Levels, empty_level, at, view, count_better, overlay_top,
}
use hyperliquid_cpp.Md.OrderBook.Spec.{IsSide, drop_better, drop_same, overlay}
use hyperliquid_cpp.Md.OrderBook.Counting.{StopsAt, count_better-StopsAt}
use hyperliquid_cpp.Md.OrderBook.Arrays.{visible_from, view-resize_top, view-insert_top}

-- The visible levels behind index `j`.
abbrev visible_tail : Levels → ℕ → List BookLevel
visible_tail s j = take (s.count - suc j) (drop (suc j) s.levels)

visible-uncons :
    (s : Levels) (j : ℕ)
    → IsSide s
    → j < s.count
    → visible_from s j ≡ at s.levels j ∷ visible_tail s j
visible-uncons s j v h =
    let e : s.count - j ≡ suc (s.count - suc j) = omega arith in
    let u : drop j s.levels ≡ at s.levels j ∷ drop (suc j) s.levels =
      drop-uncons j s.levels empty_level (omega (arith, v.full, v.within)) in
    rw (e, u)

visible_end : (s : Levels) (j : ℕ) → s.count ≤ j → visible_from s j ≡ []
visible_end s j h = let e : s.count - j ≡ 0 = omega arith in rw e

module _ (s : Levels) (best : BookLevel) (is_bid : Bool) (v : IsSide s) where
  stop : ℕ
  stop = count_better is_bid s.levels best s.count 0

  stops : StopsAt is_bid s.levels best.px s.count 0 stop
  unfolding stop
  stops = count_better-StopsAt is_bid s.levels best s.count 0 (omega (arith, v.full, v.within))

  stop-le : stop ≤ s.count
  stop-le = omega (arith, stops.to)

  left : drop_better is_bid best.px (view s) ≡ visible_from s stop
  left = let e : 0 + s.count - stop ≡ s.count - stop = omega arith in stops.left ∙ rw e

  left_resized :
      stop < s.count
      → eq_ℤ (at s.levels stop).px.raw best.px.raw ≡ true
      → take 63 (drop_same best.px (drop_better is_bid best.px (view s))) ≡ visible_tail s stop
  unfolding drop_same
  left_resized h u =
      rw (left, visible-uncons s stop v h, u)
        (take_all 63 (visible_tail s stop)
          (omega (arith, length-take (s.count - suc stop) (drop (suc stop) s.levels), v.within)))

  left_inserted :
      (stop < s.count → eq_ℤ (at s.levels stop).px.raw best.px.raw ≡ false)
      → drop_same best.px (drop_better is_bid best.px (view s)) ≡ visible_from s stop
  unfolding drop_same
  left_inserted f = elim (Bool-cases (ltb stop s.count)) [
    | inl t ↦
        let h : stop < s.count = ltb→lt stop s.count t in rw (left, visible-uncons s stop v h, f h)
    | inr t ↦ rw (left, visible_end s stop (ground arith))
  ]

-- `overlay_top` on the array is `overlay` on the visible levels, and keeps the array well formed.
pub view-overlay_top :
    (s : Levels) (best : BookLevel) (is_bid : Bool)
    → IsSide s
    → (view (overlay_top s best is_bid) ≡ overlay is_bid best (view s))
      × IsSide (overlay_top s best is_bid)
unfolding overlay_top overlay stop
view-overlay_top s best is_bid v =
    elim (Bool-cases (ltb j s.count && eq_ℤ (at s.levels j).px.raw best.px.raw)) [
      | inl t ↦
          let h : j < s.count = ground arith in
          let (p, q) =
            view-resize_top s v best j (stop-le s best is_bid v) h _ _ (visible-uncons s j v h) in
          rw t (p ∙ ap (◌∷◌ best) (sym (left_resized s best is_bid v h (ground arith))), q)
      | inr t ↦
          let (p, q) = view-insert_top s v best j (stop-le s best is_bid v) in
          rw t (
            p
                ∙ ap (λ (l : List BookLevel). best ∷ take 63 l)
                    (sym (left_inserted s best is_bid v (λ h. ground arith))),
            q,
          )
    ]
  where
    j : ℕ
    j = count_better is_bid s.levels best s.count 0

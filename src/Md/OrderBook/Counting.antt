-- ===== src/Md/OrderBook/Counting.antt =====
-- The loop of `overlayTop` that counts the levels better than the new best.
use hyperliquid_cpp.Base.{
  ℕ, zero, suc, ◌+◌, ◌-◌, ◌≤◌, ◌<◌, ◌≡◌, ap, ◌∙◌, Bool, true, false, List, length, take, drop,
  arith, Bool-cases, inl, inr, drop-uncons,
}
use hyperliquid_cpp.Core.Decimal.{Decimal}
use hyperliquid_cpp.Md.OrderBook.{BookLevel, empty_level, at, better, count_better}
use hyperliquid_cpp.Md.OrderBook.Spec.{drop_better}

-- Where the counting loop stops, in the array.
pub record StopsAt (is_bid : Bool) (levels : List BookLevel) (px : Decimal) (rounds i j : ℕ)
    : Type 0 where
  pub from : i ≤ j
  pub to : j ≤ i + rounds
  pub left :
      drop_better is_bid px (take rounds (drop i levels)) ≡ take (i + rounds - j) (drop j levels)

module _ (is_bid : Bool) (levels : List BookLevel) (best : BookLevel) where
  same_end : (rounds i : ℕ) → i + 1 + rounds ≡ i + suc rounds
  same_end rounds i = omega arith

  better_head :
      (rounds i : ℕ)
      → better is_bid (at levels i).px best.px ≡ true
      → i < length levels
      → drop_better is_bid best.px (take (suc rounds) (drop i levels))
        ≡ drop_better is_bid best.px (take rounds (drop (i + 1) levels))
  unfolding drop_better
  better_head rounds i t h =
      let e : i + 1 ≡ suc i = omega arith in rw (drop-uncons i levels empty_level h, t, e)

  other_head :
      (rounds i : ℕ)
      → better is_bid (at levels i).px best.px ≡ false
      → i < length levels
      → drop_better is_bid best.px (take (suc rounds) (drop i levels))
        ≡ take (i + suc rounds - i) (drop i levels)
  unfolding drop_better
  other_head rounds i t h =
      let e : i + suc rounds - i ≡ suc rounds = omega arith in
      rw (e, drop-uncons i levels empty_level h, t)

  pub count_better-StopsAt :
      (rounds i : ℕ)
      → i + rounds ≤ length levels
      → StopsAt is_bid levels best.px rounds i (count_better is_bid levels best rounds i)
  unfolding count_better
  count_better-StopsAt zero i h =
      let e : i + 0 - i ≡ 0 = omega arith in
      record { from = omega arith; to = omega arith; left = unfold drop_better in rw e }
  count_better-StopsAt (suc rounds) i h =
      elim (Bool-cases (better is_bid (at levels i).px best.px)) [
        | inl t ↦
            let j = count_better is_bid levels best rounds (i + 1) in
            let s = count_better-StopsAt rounds (i + 1) (omega arith) in
            rw t (record {
              from = omega (arith, s.from);
              to = omega (arith, s.to);
              left =
                  better_head rounds i t (omega arith)
                  ∙ s.left
                  ∙ ap (λ (k : ℕ). take (k - j) (drop j levels)) (same_end rounds i);
            })
        | inr t ↦ rw t (record {
          from = omega arith;
          to = omega arith;
          left = other_head rounds i t (omega arith);
        })
      ]

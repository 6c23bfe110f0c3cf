-- ===== src/Md/OrderBook/Sorted.antt =====
-- Sides sorted best first, and what the operations on the visible levels keep of that.
use hyperliquid_cpp.Base.{
  ℕ, zero, suc, ◌≡◌, Bool, true, false, not, List, [], ◌∷◌, take, arith, All, All-take, Bool-cases,
  inl, inr,
}
use hyperliquid_cpp.Base.Int.{ℤ, ◌≤ℤ◌, ◌<ℤ◌, eq_ℤ}
use hyperliquid_cpp.Core.Decimal.{Decimal}
use hyperliquid_cpp.Md.OrderBook.{BookLevel, better, crosses}
use hyperliquid_cpp.Md.OrderBook.Spec.{drop_better, drop_same, overlay, uncrossed}

-- The first price is strictly better than the second, and at least as good.
abbrev pub Better : Bool → ℤ → ℤ → Type 0
Better true p q = q <ℤ p
Better false p q = p <ℤ q

abbrev pub AtLeast : Bool → ℤ → ℤ → Type 0
AtLeast true p q = q ≤ℤ p
AtLeast false p q = p ≤ℤ q

-- Strictly best first.
abbrev pub IsSorted : Bool → List BookLevel → Type 0
IsSorted is_bid [] = Unit {0}
IsSorted is_bid (l ∷ ls) = All (λ m. Better is_bid l.px.raw m.px.raw) ls × IsSorted is_bid ls

module _ (is_bid : Bool) where
  pub take-IsSorted :
      (n : ℕ) (ls : List BookLevel) → IsSorted is_bid ls → IsSorted is_bid (take n ls)
  take-IsSorted zero ls h = tt
  take-IsSorted (suc n) [] h = tt
  take-IsSorted (suc n) (l ∷ ls) h = (All-take _ n ls h.0, take-IsSorted n ls h.1)

  pub All-uncrossed :
      (P : BookLevel → Type 0) (limit : Decimal) (ls : List BookLevel)
      → All P ls
      → All P (uncrossed is_bid limit ls)
  unfolding uncrossed
  All-uncrossed P limit [] h = tt
  All-uncrossed P limit (l ∷ ls) h = elim (Bool-cases (not (crosses is_bid limit l))) [
    | inl t ↦ rw t (h.0, All-uncrossed P limit ls h.1)
    | inr t ↦ rw t (All-uncrossed P limit ls h.1)
  ]

  pub uncrossed-IsSorted :
      (limit : Decimal) (ls : List BookLevel)
      → IsSorted is_bid ls
      → IsSorted is_bid (uncrossed is_bid limit ls)
  unfolding uncrossed
  uncrossed-IsSorted limit [] h = tt
  uncrossed-IsSorted limit (l ∷ ls) h = elim (Bool-cases (not (crosses is_bid limit l))) [
    | inl t ↦ rw t (All-uncrossed _ limit ls h.0, uncrossed-IsSorted limit ls h.1)
    | inr t ↦ rw t (uncrossed-IsSorted limit ls h.1)
  ]

-- What is left does not cross the limit.
not_crossing :
    (is_bid : Bool) (limit : Decimal) (l : BookLevel)
    → not (crosses is_bid limit l) ≡ true
    → Better is_bid limit.raw l.px.raw
not_crossing true limit l h = ground arith
not_crossing false limit l h = ground arith

pub uncrossed-Better :
    (is_bid : Bool) (limit : Decimal) (ls : List BookLevel)
    → All (λ m. Better is_bid limit.raw m.px.raw) (uncrossed is_bid limit ls)
unfolding uncrossed
uncrossed-Better is_bid limit [] = tt
uncrossed-Better is_bid limit (l ∷ ls) = elim (Bool-cases (not (crosses is_bid limit l))) [
  | inl t ↦ rw t (not_crossing is_bid limit l t, uncrossed-Better is_bid limit ls)
  | inr t ↦ rw t (uncrossed-Better is_bid limit ls)
]

Better-trans :
    (is_bid : Bool) (p q r : ℤ) → AtLeast is_bid p q → Better is_bid q r → Better is_bid p r
Better-trans true p q r h k = omega arith
Better-trans false p q r h k = omega arith

not_better :
    (is_bid : Bool) (p q : Decimal) → better is_bid p q ≡ false → AtLeast is_bid q.raw p.raw
not_better true p q h = ground arith
not_better false p q h = ground arith

not_same : (is_bid : Bool) (p q : ℤ) → AtLeast is_bid p q → eq_ℤ q p ≡ false → Better is_bid p q
not_same true p q h k = ground arith
not_same false p q h k = ground arith

worse_tail :
    (is_bid : Bool) (p q : ℤ) (ls : List BookLevel)
    → AtLeast is_bid p q
    → All (λ m. Better is_bid q m.px.raw) ls
    → All (λ m. Better is_bid p m.px.raw) ls
worse_tail is_bid p q [] h k = tt
worse_tail is_bid p q (l ∷ ls) h k =
    (Better-trans is_bid p q l.px.raw h k.0, worse_tail is_bid p q ls h k.1)

-- Behind the dropped levels everything is strictly worse than the new best.
dropped-IsSorted :
    (is_bid : Bool) (px : Decimal) (ls : List BookLevel)
    → IsSorted is_bid ls
    → All (λ m. Better is_bid px.raw m.px.raw) (drop_same px (drop_better is_bid px ls))
      × IsSorted is_bid (drop_same px (drop_better is_bid px ls))
unfolding drop_same drop_better
dropped-IsSorted is_bid px [] h = (tt, tt)
dropped-IsSorted is_bid px (l ∷ ls) h = elim (Bool-cases (better is_bid l.px px)) [
  | inl t ↦ rw t (dropped-IsSorted is_bid px ls h.1)
  | inr t ↦
      let a : AtLeast is_bid px.raw l.px.raw = not_better is_bid l.px px t in
      elim (Bool-cases (eq_ℤ l.px.raw px.raw)) [
        | inl u ↦ rw (t, u) (worse_tail is_bid px.raw l.px.raw ls a h.0, h.1)
        | inr u ↦
            rw (t, u)
              ((not_same is_bid px.raw l.px.raw a u, worse_tail is_bid px.raw l.px.raw ls a h.0), h)
      ]
]

pub overlay-IsSorted :
    (is_bid : Bool) (best : BookLevel) (ls : List BookLevel)
    → IsSorted is_bid ls
    → IsSorted is_bid (overlay is_bid best ls)
unfolding overlay
overlay-IsSorted is_bid best ls h =
    take-IsSorted is_bid 64 (best ∷ drop_same best.px (drop_better is_bid best.px ls))
      (dropped-IsSorted is_bid best.px ls h)

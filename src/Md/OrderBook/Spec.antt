-- ===== src/Md/OrderBook/Spec.antt =====
-- The book's side operations as functions on the visible levels.
use hyperliquid_cpp.Base.{◌≤◌, ◌≡◌, Bool, not, List, [], ◌∷◌, if◌then◌else◌, length, take}
use hyperliquid_cpp.Base.Int.{eq_ℤ}
use hyperliquid_cpp.Core.Decimal.{Decimal}
use hyperliquid_cpp.Md.OrderBook.{BookLevel, Levels, max_levels, better, crosses}

-- The leading levels that are better than `best` are dropped, and one of the same price.
unfoldable pub drop_better : Bool → Decimal → List BookLevel → List BookLevel
drop_better is_bid px [] = []
drop_better is_bid px (l ∷ ls) = if better is_bid l.px px then drop_better is_bid px ls else l ∷ ls

unfoldable pub drop_same : Decimal → List BookLevel → List BookLevel
drop_same px [] = []
drop_same px (l ∷ ls) = if eq_ℤ l.px.raw px.raw then ls else l ∷ ls

-- A best level on top of what is not better than it, within the capacity.
unfoldable pub overlay : Bool → BookLevel → List BookLevel → List BookLevel
overlay is_bid best ls = take max_levels (best ∷ drop_same best.px (drop_better is_bid best.px ls))

unfoldable pub uncrossed : Bool → Decimal → List BookLevel → List BookLevel
uncrossed is_bid limit [] = []
uncrossed is_bid limit (l ∷ ls) =
    if not (crosses is_bid limit l)
    then l ∷ uncrossed is_bid limit ls
    else uncrossed is_bid limit ls

-- The array has its capacity, and the levels in use lie in it.
pub record IsSide (s : Levels) : Type 0 where
  pub full : length s.levels ≡ max_levels
  pub within : s.count ≤ max_levels

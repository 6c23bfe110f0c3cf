-- ===== src/Md/OrderBook/Compaction.antt =====
-- The in-place loop of `dropCrossing` filters the visible levels.
use hyperliquid_cpp.Base.{
  ℕ, zero, suc, ◌+◌, ◌≤◌, ◌<◌, ◌≡◌, refl, sym, ◌∙◌, Bool, not, List, [], ◌∷◌, ◌++◌, if◌then◌else◌,
  length, take, drop, set, arith, Bool-cases, inl, inr, drop-uncons, take-suc-set, drop-set_lt,
  append_assoc, append-nil, length-set,
}
use hyperliquid_cpp.Core.Decimal.{Decimal}
use hyperliquid_cpp.Md.OrderBook.{
  BookLevel, Levels, empty_level, at, view, crosses, compact, drop_crossing,
}
use hyperliquid_cpp.Md.OrderBook.Spec.{IsSide, uncrossed}

-- What the loop leaves: the entries kept before it, and those kept from the rounds to come.
record Compacts (is_bid : Bool) (limit : Decimal) (rounds i out : ℕ) (levels : List BookLevel)
    (r : Levels) : Type 0 where
  kept :
      take r.count r.levels
      ≡ take out levels ++ uncrossed is_bid limit (take rounds (drop i levels))
  full : length r.levels ≡ length levels
  within : r.count ≤ out + rounds

module _ (is_bid : Bool) (limit : Decimal) where
  uncrossed-head :
      (rounds i : ℕ) (levels : List BookLevel)
      → i < length levels
      → uncrossed is_bid limit (take (suc rounds) (drop i levels)) ≡ (
          if not (crosses is_bid limit (at levels i))
          then at levels i ∷ uncrossed is_bid limit (take rounds (drop (i + 1) levels))
          else uncrossed is_bid limit (take rounds (drop (i + 1) levels)))
  unfolding uncrossed
  uncrossed-head rounds i levels h =
      let e : i + 1 ≡ suc i = omega arith in rw (drop-uncons i levels empty_level h, e)

  compact-Compacts :
      (rounds i out : ℕ) (levels : List BookLevel)
      → out ≤ i
      → i + rounds ≤ length levels
      → Compacts is_bid limit rounds i out levels (compact is_bid limit rounds i out levels)
  unfolding compact
  compact-Compacts zero i out levels h k = record {
    kept = unfold uncrossed in sym (append-nil (take out levels));
    full = refl;
    within = omega arith;
  }
  compact-Compacts (suc rounds) i out levels h k =
      elim (Bool-cases (not (crosses is_bid limit (at levels i)))) [
        | inl t ↦
            let l : BookLevel = at levels i in
            let o : out + 1 ≡ suc out = omega arith in
            let c =
              compact-Compacts rounds (i + 1) (out + 1) (set levels out l) (omega arith)
                (omega (arith, length-set levels out l)) in
            rw t (record {
              kept =
                  c.kept
                  ∙ rw
                      (
                        o,
                        take-suc-set out levels l (omega arith),
                        drop-set_lt (i + 1) out levels l (omega arith),
                        uncrossed-head rounds i levels (omega arith),
                        t,
                      )
                      (append_assoc (take out levels) (l ∷ []) _);
              full = omega (arith, c.full, length-set levels out l);
              within = omega (arith, c.within);
            })
        | inr t ↦
            let c = compact-Compacts rounds (i + 1) out levels (omega arith) (omega arith) in
            rw t (record {
              kept = c.kept ∙ rw (uncrossed-head rounds i levels (omega arith), t);
              full = c.full;
              within = omega (arith, c.within);
            })
      ]

-- `drop_crossing` on the array keeps, in order, exactly the visible levels that do not cross the
-- limit, and keeps the array well formed.
pub view-drop_crossing :
    (s : Levels) (limit : Decimal) (is_bid : Bool)
    → IsSide s
    → (view (drop_crossing s limit is_bid) ≡ uncrossed is_bid limit (view s))
      × IsSide (drop_crossing s limit is_bid)
unfolding drop_crossing
view-drop_crossing s limit is_bid v =
    let c =
      compact-Compacts is_bid limit s.count 0 0 s.levels (omega arith)
        (omega (arith, v.full, v.within)) in
    (
      c.kept,
      record { full = omega (arith, c.full, v.full); within = omega (arith, c.within, v.within) },
    )

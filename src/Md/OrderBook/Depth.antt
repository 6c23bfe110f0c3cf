-- ===== src/Md/OrderBook/Depth.antt =====
-- Queries over the visible depth: the average execution price, and the mid price.
use hyperliquid_cpp.Base.{
  ◌+◌, ◌/◌, ◌≡◌, refl, true, false, List, [], ◌∷◌, Option, some, none, arith, All, Bool-cases, inl,
  inr, ltb→lt, if◌then◌else◌, ◌∙◌, sym,
}
use hyperliquid_cpp.Base.Int.{
  ℤ, pos, negsuc, ◌≤ℤ◌, ◌<ℤ◌, ◌+ℤ◌, ◌-ℤ◌, lt_ℤ, le_ℤ, eq_ℤ, tdiv, +ℤ_parts, -ℤ_parts, pos_part,
  neg_part, ◌*ℤ◌, eq_of_parts, IsInt64, int64_max,
}
use hyperliquid_cpp.Core.Decimal.{Decimal, from_raw}
use hyperliquid_cpp.Md.OrderBook.{
  BookLevel, OrderBook, Side, vwap_loop, vwap_for_size, taker_depth, at, mid, is_valid, view,
}

-- The venue sends no negative sizes.
abbrev pub SizesNonNegative : List BookLevel → Type 0
SizesNonNegative ls = All (λ l. pos 0 ≤ℤ l.sz.raw) ls

-- The size of all levels of a side.
unfoldable pub total_size : List BookLevel → ℤ
total_size [] = pos 0
total_size (l ∷ ls) = l.sz.raw +ℤ total_size ls

-- What a fill of `need` takes from a level of that size with `before` in front of it: nothing of a
-- level behind the fill, all of a level inside it, and the difference where the fill ends.
abbrev pub taken_from : ℤ → ℤ → ℤ → ℤ
taken_from need before size =
    if le_ℤ need before then pos 0 else if le_ℤ (before +ℤ size) need then size else need -ℤ before

-- What a fill of `need` costs on a side, the levels with `before` in front of them.
unfoldable pub cost : ℤ → ℤ → List BookLevel → ℤ
cost need before [] = pos 0
cost need before (l ∷ ls) =
    taken_from need before l.sz.raw *ℤ l.px.raw +ℤ cost need (before +ℤ l.sz.raw) ls

-- The average price of a fill of `sz`, cut towards zero, or nothing when the side is too small.
abbrev pub Fills : List BookLevel → ℤ → Option Decimal → Type 0
Fills ls sz r =
    r ≡ (if le_ℤ sz (total_size ls) then some (from_raw (tdiv (cost sz (pos 0) ls) sz)) else none)

total_size-not_negative : (ls : List BookLevel) → SizesNonNegative ls → pos 0 ≤ℤ total_size ls
unfolding total_size
total_size-not_negative [] h = omega arith
total_size-not_negative (l ∷ ls) h =
    omega (arith, +ℤ_parts l.sz.raw (total_size ls), total_size-not_negative ls h.1, h.0)

zero_times : (a : ℤ) → pos 0 *ℤ a ≡ pos 0
unfolding ◌*ℤ◌
zero_times a = ground arith

-- Behind the fill nothing costs anything.
cost_behind :
    (ls : List BookLevel) (need before : ℤ)
    → SizesNonNegative ls
    → need ≤ℤ before
    → cost need before ls ≡ pos 0
unfolding cost
cost_behind [] need before h k = refl
cost_behind (l ∷ ls) need before h k =
    let behind : le_ℤ need before ≡ true = ground arith in
    let rest : cost need (before +ℤ l.sz.raw) ls ≡ pos 0 =
      cost_behind ls need (before +ℤ l.sz.raw) h.1
        (omega (arith, +ℤ_parts before l.sz.raw, k, h.0)) in
    rw (behind, rest, zero_times l.px.raw)
      (eq_of_parts _ _ (omega (arith, +ℤ_parts (pos 0) (pos 0))))

-- need = before + remaining, in numbers.
abbrev Splits : ℤ → ℤ → ℤ → Type 0
Splits need before remaining =
    pos_part need + neg_part before + neg_part remaining
    ≡ neg_part need + pos_part before + pos_part remaining

-- What the loop returns with `remaining` still to take and `notional` spent.
abbrev looped : List BookLevel → ℤ → ℤ → ℤ → ℤ → Option Decimal
looped ls sz before remaining notional =
    if le_ℤ remaining (total_size ls)
    then some (from_raw (tdiv (notional +ℤ cost sz before ls) sz))
    else none

add_assoc : (a b c : ℤ) → a +ℤ b +ℤ c ≡ a +ℤ (b +ℤ c)
add_assoc a b c =
    eq_of_parts _ _
      (omega (arith, +ℤ_parts (a +ℤ b) c, +ℤ_parts a b, +ℤ_parts a (b +ℤ c), +ℤ_parts b c))

module _ (l : BookLevel) (ls : List BookLevel) (sz before remaining notional : ℤ) where
  module _ (h : SizesNonNegative (l ∷ ls)) (p : pos 0 <ℤ remaining)
      (e : Splits sz before remaining) where
    -- The level is taken whole, and the loop goes on.
    level_whole :
        l.sz.raw <ℤ remaining
        → looped ls sz
            (before +ℤ l.sz.raw)
            (remaining -ℤ l.sz.raw)
            (notional +ℤ l.sz.raw *ℤ l.px.raw)
          ≡ looped (l ∷ ls) sz before remaining notional
    unfolding total_size cost
    level_whole k =
        let inside : le_ℤ sz before ≡ false = ground arith in
        let whole : le_ℤ (before +ℤ l.sz.raw) sz ≡ true =
          ground (arith, +ℤ_parts before l.sz.raw) in
        let same : le_ℤ (remaining -ℤ l.sz.raw) (total_size ls)
            ≡ le_ℤ remaining (l.sz.raw +ℤ total_size ls) =
          ground (arith, -ℤ_parts remaining l.sz.raw, +ℤ_parts l.sz.raw (total_size ls)) in
        rw
          (
            inside,
            whole,
            same,
            add_assoc notional (l.sz.raw *ℤ l.px.raw) (cost sz (before +ℤ l.sz.raw) ls),
          )
          refl

    -- The fill ends in the level.
    level_last :
        remaining ≤ℤ l.sz.raw
        → looped (l ∷ ls) sz before remaining notional
          ≡ some (from_raw (tdiv (notional +ℤ remaining *ℤ l.px.raw) sz))
    unfolding total_size cost
    level_last k =
        let enough : le_ℤ remaining (l.sz.raw +ℤ total_size ls) ≡ true =
          ground (arith, +ℤ_parts l.sz.raw (total_size ls), total_size-not_negative ls h.1) in
        let part : taken_from sz before l.sz.raw ≡ remaining =
          eq_of_parts _ _ (ground (arith, +ℤ_parts before l.sz.raw, -ℤ_parts sz before)) in
        let rest : cost sz (before +ℤ l.sz.raw) ls ≡ pos 0 =
          cost_behind ls sz (before +ℤ l.sz.raw) h.1
            (omega (arith, +ℤ_parts before l.sz.raw, e, k)) in
        let nothing : remaining *ℤ l.px.raw +ℤ pos 0 ≡ remaining *ℤ l.px.raw =
          eq_of_parts _ _ (omega (arith, +ℤ_parts (remaining *ℤ l.px.raw) (pos 0))) in
        rw (enough, part, rest, nothing) refl

vwap_loop_lem :
    (ls : List BookLevel) (sz before remaining notional : ℤ)
    → SizesNonNegative ls
    → pos 0 <ℤ remaining
    → Splits sz before remaining
    → vwap_loop ls sz remaining notional ≡ looped ls sz before remaining notional
unfolding vwap_loop total_size
vwap_loop_lem [] sz before remaining notional h p e =
    let few : le_ℤ remaining (pos 0) ≡ false = ground arith in rw few refl
vwap_loop_lem (l ∷ ls) sz before remaining notional h p e =
    elim (Bool-cases (lt_ℤ l.sz.raw remaining)) [
      | inl t ↦
          let k : l.sz.raw <ℤ remaining = ltb→lt _ _ t in
          let u : eq_ℤ (remaining -ℤ l.sz.raw) (pos 0) ≡ false =
            ground (arith, -ℤ_parts remaining l.sz.raw) in
          rw (t, u)
            (vwap_loop_lem ls sz (before +ℤ l.sz.raw) (remaining -ℤ l.sz.raw) _ h.1
                (omega (arith, -ℤ_parts remaining l.sz.raw, k))
                (omega (arith, -ℤ_parts remaining l.sz.raw, +ℤ_parts before l.sz.raw, e))
              ∙ level_whole l ls sz before remaining notional h p e k)
      | inr t ↦
          let u : eq_ℤ (remaining -ℤ remaining) (pos 0) ≡ true =
            ground (arith, -ℤ_parts remaining remaining) in
          rw (t, u) (sym (level_last l ls sz before remaining notional h p e (ground arith)))
    ]

filled :
    (ls : List BookLevel) (sz : ℤ)
    → pos 0 <ℤ sz
    → SizesNonNegative ls
    → Fills ls sz (vwap_loop ls sz sz (pos 0))
filled ls sz p h =
    let nothing_spent : pos 0 +ℤ cost sz (pos 0) ls ≡ cost sz (pos 0) ls =
      eq_of_parts _ _ (omega (arith, +ℤ_parts (pos 0) (cost sz (pos 0) ls))) in
    vwap_loop_lem ls sz (pos 0) sz (pos 0) h p (omega arith) ∙ rw nothing_spent refl

-- For a positive size and sides without negative sizes: a buy takes the asks and a sell the bids,
-- from the best level on. Where the visible sizes of that side sum to at least the size, the result is
-- the exact cost of taking it level by level, divided by the size and cut towards zero; otherwise
-- there is no price.
pub vwap_for_size-Fills :
    (b : OrderBook) (sz : Decimal)
    → pos 0 <ℤ sz.raw
    → SizesNonNegative (view b.asks)
    → SizesNonNegative (view b.bids)
    → Fills (view b.asks) sz.raw (vwap_for_size b Side.buy sz)
      × Fills (view b.bids) sz.raw (vwap_for_size b Side.sell sz)
unfolding vwap_for_size taker_depth
vwap_for_size-Fills b sz p asks bids =
    let u : le_ℤ sz.raw (pos 0) ≡ false = ground arith in
    rw u (filled (view b.asks) sz.raw p asks, filled (view b.bids) sz.raw p bids)

-- `m` is half of `a + c`, cut down.
abbrev pub IsHalf : ℤ → ℤ → ℤ → Type 0
IsHalf a c m = (m +ℤ m ≤ℤ a +ℤ c) × (a +ℤ c <ℤ m +ℤ m +ℤ pos 2)

tdiv-IsHalf :
    (a c : ℤ)
    → pos 0 ≤ℤ a
    → a <ℤ c
    → IsHalf a c (tdiv (a +ℤ c) (pos 2))
      × (a ≤ℤ tdiv (a +ℤ c) (pos 2))
      × (tdiv (a +ℤ c) (pos 2) <ℤ c)
unfolding tdiv ◌+ℤ◌
tdiv-IsHalf (pos a) (pos c) h k = ground arith
tdiv-IsHalf (pos a) (negsuc c) h k = absurd (omega arith)
tdiv-IsHalf (negsuc a) c h k = absurd (omega arith)

sum_fits : (a c : ℤ) → pos 0 ≤ℤ a → a <ℤ c → c ≤ℤ pos (int64_max / 2) → IsInt64 (a +ℤ c)
unfolding ◌+ℤ◌
sum_fits (pos a) (pos c) h k l = ground arith
sum_fits (pos a) (negsuc c) h k l = absurd (omega arith)
sum_fits (negsuc a) c h k l = absurd (omega arith)

valid_lt :
    (b : OrderBook) → is_valid b ≡ true → (at b.bids.levels 0).px.raw <ℤ (at b.asks.levels 0).px.raw
unfolding is_valid
valid_lt b v = ground arith

-- On a valid book whose best bid is not negative and whose best ask is at most half of the largest
-- int64_t, the sum of both prices fits an int64_t, and the mid price is that sum halved and cut down:
-- at least the best bid and below the best ask.
pub mid_between :
    (b : OrderBook)
    → is_valid b ≡ true
    → pos 0 ≤ℤ (at b.bids.levels 0).px.raw
    → (at b.asks.levels 0).px.raw ≤ℤ pos (int64_max / 2)
    → IsInt64 ((at b.bids.levels 0).px.raw +ℤ (at b.asks.levels 0).px.raw)
      × IsHalf (at b.bids.levels 0).px.raw (at b.asks.levels 0).px.raw (mid b).raw
      × ((at b.bids.levels 0).px.raw ≤ℤ (mid b).raw)
      × ((mid b).raw <ℤ (at b.asks.levels 0).px.raw)
unfolding mid
mid_between b v h k =
    let (half, above, below) = tdiv-IsHalf _ _ h (valid_lt b v) in
    rw v (sum_fits _ _ h (valid_lt b v) k, half, above, below)

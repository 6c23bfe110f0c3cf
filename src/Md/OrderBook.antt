-- ===== src/Md/OrderBook.antt =====
-- include/hl/md/OrderBook.h and src/md/OrderBook.cpp: the order book of one coin.
-- A side is the fixed array of `max_levels` entries with the number of them that are in use, as the
-- class stores it; `view` is the list that `bids()` and `asks()` show. The book's operations move
-- array entries by `memmove` and by an in-place loop, as the source does.
pub mod Spec
mod Counting
mod Arrays
pub mod Refinement
pub mod Compaction
pub mod Sorted
pub mod Invariant
pub mod TopOfBook
pub mod Depth
mod Runs
use hyperliquid_cpp.Base.{
  ℕ, zero, suc, ◌+◌, ◌-◌, ◌%◌, min, Bool, true, false, ◌&&◌, not, Option, none, some, List, [], ◌∷◌,
  ◌++◌, ltb, ◌==◌, if◌then◌else◌, length, take, drop, get_or, set,
}
use hyperliquid_cpp.Base.Int.{ℤ, pos, lt_ℤ, le_ℤ, eq_ℤ, ◌+ℤ◌, ◌-ℤ◌, ◌*ℤ◌, tdiv}
use hyperliquid_cpp.Core.Decimal.{Decimal, from_raw, u64}

pub record BookLevel : Type 0 where
  pub px : Decimal
  pub sz : Decimal
  pub n : ℕ

abbrev pub max_levels : ℕ
max_levels = 64

abbrev pub empty_level : BookLevel
empty_level = record { px = from_raw (pos 0); sz = from_raw (pos 0); n = 0 }

pub record Levels : Type 0 where
  pub levels : List BookLevel
  pub count : ℕ

pub record OrderBook : Type 0 where
  pub bids : Levels
  pub asks : Levels
  pub time_ms : ℤ
  pub snapshot_time_ms : ℤ
  pub updates : ℕ

pub record L2BookMsg : Type 0 where
  pub time_ms : ℤ
  pub bids : List BookLevel
  pub asks : List BookLevel

pub record BboMsg : Type 0 where
  pub time_ms : ℤ
  pub has_bid : Bool
  pub has_ask : Bool
  pub bid : BookLevel
  pub ask : BookLevel

-- `std::memmove` inside one array: `n` entries from `src` on to `dst` on.
abbrev pub memmove : List BookLevel → ℕ → ℕ → ℕ → List BookLevel
memmove levels dst src n = take dst levels ++ (take n (drop src levels) ++ drop (dst + n) levels)

abbrev pub at : List BookLevel → ℕ → BookLevel
at levels i = get_or levels i empty_level

-- `bids()` and `asks()`.
abbrev pub view : Levels → List BookLevel
view s = take s.count s.levels

-- `copyLevels`: the entries behind the copied ones keep their old values.
pub copy_levels : List BookLevel → Levels → Levels
copy_levels src dst =
    let n = min (length src) max_levels in
    record { levels = take n src ++ drop n dst.levels; count = n }

pub apply_snapshot : OrderBook → L2BookMsg → OrderBook
apply_snapshot b msg = record {
  bids = copy_levels msg.bids b.bids;
  asks = copy_levels msg.asks b.asks;
  time_ms = msg.time_ms;
  snapshot_time_ms = msg.time_ms;
  updates = (b.updates + 1) % u64;
}

-- The first price is strictly better than the second on that side.
abbrev pub better : Bool → Decimal → Decimal → Bool
better true p q = lt_ℤ q.raw p.raw
better false p q = lt_ℤ p.raw q.raw

-- The loop that counts the leading levels better than `best`, by the rounds left.
pub count_better : Bool → List BookLevel → BookLevel → ℕ → ℕ → ℕ
count_better is_bid levels best zero drop = drop
count_better is_bid levels best (suc rounds) drop =
    if better is_bid (at levels drop).px best.px
    then count_better is_bid levels best rounds (drop + 1)
    else drop

-- An existing level becomes the top.
pub resize_top : Levels → ℕ → BookLevel → Levels
resize_top s dropped best =
    if dropped == 0 then record { levels = set s.levels 0 best; count = s.count } else record {
      levels = set (memmove s.levels 0 dropped (s.count - dropped)) 0 best;
      count = s.count - dropped;
    }

-- A new best level replaces the dropped prefix.
pub insert_top : Levels → ℕ → BookLevel → Levels
insert_top s dropped best =
    if dropped == 0
    then (let keep = min s.count (max_levels - 1) in
        record { levels = set (memmove s.levels 1 0 keep) 0 best; count = keep + 1 })
    else if ltb 1 dropped
    then record {
      levels = set (memmove s.levels 1 dropped (s.count - dropped)) 0 best;
      count = s.count - (dropped - 1);
    }
    else record { levels = set s.levels 0 best; count = s.count }

pub overlay_top : Levels → BookLevel → Bool → Levels
overlay_top s best is_bid =
    let dropped = count_better is_bid s.levels best s.count 0 in
    if ltb dropped s.count && eq_ℤ (at s.levels dropped).px.raw best.px.raw
    then resize_top s dropped best
    else insert_top s dropped best

abbrev pub crosses : Bool → Decimal → BookLevel → Bool
crosses true limit l = le_ℤ limit.raw l.px.raw
crosses false limit l = le_ℤ l.px.raw limit.raw

-- The loop of `dropCrossing`, by the rounds left: entry `i` is read, and kept at `out`.
pub compact : Bool → Decimal → ℕ → ℕ → ℕ → List BookLevel → Levels
compact is_bid limit zero i out levels = record { levels = levels; count = out }
compact is_bid limit (suc rounds) i out levels =
    let kept = compact is_bid limit rounds (i + 1) (out + 1) (set levels out (at levels i)) in
    let skipped = compact is_bid limit rounds (i + 1) out levels in
    if not (crosses is_bid limit (at levels i)) then kept else skipped

pub drop_crossing : Levels → Decimal → Bool → Levels
drop_crossing s limit is_bid = compact is_bid limit s.count 0 0 s.levels

abbrev pub emptied : Levels → Levels
emptied s = record s { count = 0 }

-- The result false is an update older than the last snapshot: the book stays as it is.
pub apply_bbo : OrderBook → BboMsg → OrderBook × Bool
apply_bbo b msg =
    if lt_ℤ msg.time_ms b.snapshot_time_ms
    then (b, false)
    else (let bids = if msg.has_bid then overlay_top b.bids msg.bid true else emptied b.bids in
        let asks = if msg.has_ask then overlay_top b.asks msg.ask false else emptied b.asks in
        (
          record {
            bids = if msg.has_ask then drop_crossing bids msg.ask.px true else bids;
            asks = if msg.has_bid then drop_crossing asks msg.bid.px false else asks;
            time_ms = msg.time_ms;
            snapshot_time_ms = b.snapshot_time_ms;
            updates = (b.updates + 1) % u64;
          },
          true,
        ))

pub clear : OrderBook → OrderBook
clear b = record b { bids = emptied b.bids; asks = emptied b.asks }

pub is_valid : OrderBook → Bool
is_valid b =
    not (b.bids.count == 0)
    && not (b.asks.count == 0)
    && lt_ℤ (at b.bids.levels 0).px.raw (at b.asks.levels 0).px.raw

pub best_bid : OrderBook → Option BookLevel
best_bid b = if b.bids.count == 0 then none else some (at b.bids.levels 0)

pub best_ask : OrderBook → Option BookLevel
best_ask b = if b.asks.count == 0 then none else some (at b.asks.levels 0)

pub mid : OrderBook → Decimal
mid b =
    if is_valid b
    then from_raw (tdiv ((at b.bids.levels 0).px.raw +ℤ (at b.asks.levels 0).px.raw) (pos 2))
    else from_raw (pos 0)

pub spread : OrderBook → Decimal
spread b =
    if is_valid b
    then from_raw ((at b.asks.levels 0).px.raw -ℤ (at b.bids.levels 0).px.raw)
    else from_raw (pos 0)

pub microprice : OrderBook → Decimal
microprice b =
    let bid = at b.bids.levels 0 in
    let ask = at b.asks.levels 0 in
    let total = bid.sz.raw +ℤ ask.sz.raw in
    if not (is_valid b)
    then from_raw (pos 0)
    else if eq_ℤ total (pos 0)
    then mid b
    else from_raw (tdiv (bid.px.raw *ℤ ask.sz.raw +ℤ ask.px.raw *ℤ bid.sz.raw) total)

pub data Side : Type 0 where
  buy sell : Side

pub side : OrderBook → Side → List BookLevel
side b Side.buy = view b.bids
side b Side.sell = view b.asks

-- The sum over the first `n` levels of a side.
pub sum_sizes : ℕ → List BookLevel → ℤ → ℤ
sum_sizes zero ls total = total
sum_sizes (suc n) [] total = total
sum_sizes (suc n) (l ∷ ls) total = sum_sizes n ls (total +ℤ l.sz.raw)

pub cumulative_size : OrderBook → Side → ℕ → Decimal
cumulative_size b s n = from_raw (sum_sizes n (side b s) (pos 0))

abbrev pub min_ℤ : ℤ → ℤ → ℤ
min_ℤ a b = if lt_ℤ b a then b else a

-- The loop of `vwapForSize`: the size that remains, and the notional so far.
pub vwap_loop : List BookLevel → ℤ → ℤ → ℤ → Option Decimal
vwap_loop [] sz remaining notional = none
vwap_loop (l ∷ ls) sz remaining notional =
    let taken = min_ℤ remaining l.sz.raw in
    let notional' = notional +ℤ taken *ℤ l.px.raw in
    let more = vwap_loop ls sz (remaining -ℤ taken) notional' in
    if eq_ℤ (remaining -ℤ taken) (pos 0) then some (from_raw (tdiv notional' sz)) else more

-- The side that a taker executes against.
pub taker_depth : OrderBook → Side → List BookLevel
taker_depth b Side.buy = view b.asks
taker_depth b Side.sell = view b.bids

pub vwap_for_size : OrderBook → Side → Decimal → Option Decimal
vwap_for_size b taker sz =
    if le_ℤ sz.raw (pos 0) then none else vwap_loop (taker_depth b taker) sz.raw sz.raw (pos 0)

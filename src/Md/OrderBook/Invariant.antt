-- ===== src/Md/OrderBook/Invariant.antt =====
-- The book as a state machine: what holds after every sequence of snapshots, updates and clears.
use hyperliquid_cpp.Base.{
  ℕ, zero, suc, ◌≡◌, ◌∙◌, min, Bool, true, false, List, [], ◌∷◌, if◌then◌else◌, length, take, drop,
  arith, Bool-cases, inl, inr, length-append, length-take, length-drop, take-append_le, take-take,
}
use hyperliquid_cpp.Base.Int.{lt_ℤ}
use hyperliquid_cpp.Core.Decimal.{Decimal}
use hyperliquid_cpp.Md.OrderBook.{
  BookLevel, Levels, OrderBook, L2BookMsg, BboMsg, max_levels, view, copy_levels, apply_snapshot,
  apply_bbo, clear, emptied, overlay_top, drop_crossing,
}
use hyperliquid_cpp.Md.OrderBook.Spec.{IsSide}
use hyperliquid_cpp.Md.OrderBook.Refinement.{view-overlay_top}
use hyperliquid_cpp.Md.OrderBook.Compaction.{view-drop_crossing}
use hyperliquid_cpp.Md.OrderBook.Sorted.{
  IsSorted, take-IsSorted, uncrossed-IsSorted, overlay-IsSorted,
}

-- A side in a well-formed array, sorted best first.
pub record IsGood (is_bid : Bool) (s : Levels) : Type 0 where
  pub side : IsSide s
  pub sorted : IsSorted is_bid (view s)

pub record IsBook (b : OrderBook) : Type 0 where
  pub bids : IsGood true b.bids
  pub asks : IsGood false b.asks

pub emptied-IsGood : (is_bid : Bool) (s : Levels) → IsGood is_bid s → IsGood is_bid (emptied s)
emptied-IsGood is_bid s g = record {
  side = record { full = g.side.full; within = omega arith };
  sorted = tt;
}

pub overlay_top-IsGood :
    (is_bid : Bool) (s : Levels) (best : BookLevel)
    → IsGood is_bid s
    → IsGood is_bid (overlay_top s best is_bid)
overlay_top-IsGood is_bid s best g =
    let (e, side) = view-overlay_top s best is_bid g.side in
    record { side = side; sorted = rw e (overlay-IsSorted is_bid best (view s) g.sorted) }

pub drop_crossing-IsGood :
    (is_bid : Bool) (s : Levels) (limit : Decimal)
    → IsGood is_bid s
    → IsGood is_bid (drop_crossing s limit is_bid)
drop_crossing-IsGood is_bid s limit g =
    let (e, side) = view-drop_crossing s limit is_bid g.side in
    record { side = side; sorted = rw e (uncrossed-IsSorted is_bid limit (view s) g.sorted) }

take-min-length : (n : ℕ) (xs : List BookLevel) → take (min (length xs) n) xs ≡ take n xs
take-min-length zero xs = let e : min (length xs) 0 ≡ 0 = omega arith in rw e
take-min-length (suc n) [] = let e : min 0 (suc n) ≡ 0 = omega arith in rw e
take-min-length (suc n) (x ∷ xs) =
    let e : min (suc (length xs)) (suc n) ≡ suc (min (length xs) n) = omega arith in
    rw (e, take-min-length n xs)

-- A snapshot shows its first `max_levels` levels.
view-copy_levels :
    (src : List BookLevel) (dst : Levels)
    → IsSide dst
    → (view (copy_levels src dst) ≡ take max_levels src) × IsSide (copy_levels src dst)
unfolding copy_levels
view-copy_levels src dst v = (
  take-append_le n (take n src) _ (omega (arith, length-take n src))
      ∙ take-take n n src (omega arith)
      ∙ take-min-length 64 src,
  record {
    full = omega (
      arith,
      length-append (take n src) (drop n dst.levels),
      length-take n src,
      length-drop n dst.levels,
      v.full,
    );
    within = omega arith;
  },
)
  where
    n : ℕ
    n = min (length src) 64

copy_levels-IsGood :
    (is_bid : Bool) (src : List BookLevel) (dst : Levels)
    → IsSide dst
    → IsSorted is_bid src
    → IsGood is_bid (copy_levels src dst)
copy_levels-IsGood is_bid src dst v h =
    let (e, side) = view-copy_levels src dst v in
    record { side = side; sorted = rw e (take-IsSorted is_bid 64 src h) }

-- A snapshot as the venue sends it is sorted best first on both sides.
pub record IsSnapshot (msg : L2BookMsg) : Type 0 where
  pub bids : IsSorted true msg.bids
  pub asks : IsSorted false msg.asks

-- A snapshot shows exactly the first 64 levels of the message on each side, whatever the book held
-- before.
pub view-apply_snapshot :
    (b : OrderBook) (msg : L2BookMsg)
    → IsBook b
    → (view (apply_snapshot b msg).bids ≡ take max_levels msg.bids)
      × (view (apply_snapshot b msg).asks ≡ take max_levels msg.asks)
unfolding apply_snapshot
view-apply_snapshot b msg v = (
  (view-copy_levels msg.bids b.bids v.bids.side).0,
  (view-copy_levels msg.asks b.asks v.asks.side).0,
)

pub apply_snapshot-IsBook :
    (b : OrderBook) (msg : L2BookMsg) → IsBook b → IsSnapshot msg → IsBook (apply_snapshot b msg)
unfolding apply_snapshot
apply_snapshot-IsBook b msg v h = record {
  bids = copy_levels-IsGood true msg.bids b.bids v.bids.side h.bids;
  asks = copy_levels-IsGood false msg.asks b.asks v.asks.side h.asks;
}

-- The sides after an update that is not too old.
new_side : Bool → Bool → BookLevel → Levels → Levels
new_side is_bid present best s = if present then overlay_top s best is_bid else emptied s

new_side-IsGood :
    (is_bid present : Bool) (best : BookLevel) (s : Levels)
    → IsGood is_bid s
    → IsGood is_bid (new_side is_bid present best s)
unfolding new_side
new_side-IsGood is_bid true best s g = overlay_top-IsGood is_bid s best g
new_side-IsGood is_bid false best s g = emptied-IsGood is_bid s g

trimmed : Bool → Bool → Decimal → Levels → Levels
trimmed is_bid present limit s = if present then drop_crossing s limit is_bid else s

trimmed-IsGood :
    (is_bid present : Bool) (limit : Decimal) (s : Levels)
    → IsGood is_bid s
    → IsGood is_bid (trimmed is_bid present limit s)
unfolding trimmed
trimmed-IsGood is_bid true limit s g = drop_crossing-IsGood is_bid s limit g
trimmed-IsGood is_bid false limit s g = g

pub apply_bbo-IsBook : (b : OrderBook) (msg : BboMsg) → IsBook b → IsBook (apply_bbo b msg).0
unfolding apply_bbo new_side trimmed
apply_bbo-IsBook b msg v = elim (Bool-cases (lt_ℤ msg.time_ms b.snapshot_time_ms)) [
  | inl t ↦ rw t v
  | inr t ↦ rw t (record {
    bids =
        trimmed-IsGood true msg.has_ask msg.ask.px _
          (new_side-IsGood true msg.has_bid msg.bid b.bids v.bids);
    asks =
        trimmed-IsGood false msg.has_bid msg.bid.px _
          (new_side-IsGood false msg.has_ask msg.ask b.asks v.asks);
  })
]

pub clear-IsBook : (b : OrderBook) → IsBook b → IsBook (clear b)
unfolding clear
clear-IsBook b v = record {
  bids = emptied-IsGood true b.bids v.bids;
  asks = emptied-IsGood false b.asks v.asks;
}

-- What happens to a book: the venue's messages, and a clear when the session is lost.
pub data Event : OrderBook → OrderBook → Type 0 where
  snapshot : (b : OrderBook) (msg : L2BookMsg) → IsSnapshot msg → Event b (apply_snapshot b msg)
  bbo : (b : OrderBook) (msg : BboMsg) → Event b (apply_bbo b msg).0
  cleared : (b : OrderBook) → Event b (clear b)

pub data History (b : OrderBook) : OrderBook → Type 0 where
  here : History b b
  next : {c d : OrderBook} → History b c → Event c d → History b d

Event-IsBook : {b c : OrderBook} → Event b c → IsBook b → IsBook c
Event-IsBook (snapshot b msg h) v = apply_snapshot-IsBook b msg v h
Event-IsBook (bbo b msg) v = apply_bbo-IsBook b msg v
Event-IsBook (cleared b) v = clear-IsBook b v

-- After any sequence of sorted snapshots, arbitrary bbo updates and clears, both arrays are within
-- their capacity and both sides are sorted strictly best first.
pub History-IsBook : {b c : OrderBook} → IsBook b → History b c → IsBook c
History-IsBook v here = v
History-IsBook v (next h e) = Event-IsBook e (History-IsBook v h)

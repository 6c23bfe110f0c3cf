-- ===== src/Md/OrderBook/Runs.antt =====
-- Runs of the book, and its theorems at concrete inputs.
use hyperliquid_cpp.Base.{ℕ, ◌≡◌, refl, List, ◌∷◌, [], some, arith, true, replicate}
use hyperliquid_cpp.Base.Int.{pos, ◌≤ℤ◌, ◌<ℤ◌, ◌+ℤ◌, ◌-ℤ◌, ◌*ℤ◌, tdiv, IsInt64}
use hyperliquid_cpp.Core.Decimal.{from_raw}
use hyperliquid_cpp.Md.OrderBook.{
  BookLevel, Levels, OrderBook, L2BookMsg, BboMsg, Side, empty_level, view, apply_snapshot,
  apply_bbo, overlay_top, count_better, resize_top, insert_top, drop_crossing, compact, is_valid,
  best_bid, best_ask, vwap_for_size, vwap_loop, taker_depth, mid,
}
use hyperliquid_cpp.Md.OrderBook.Spec.{IsSide, overlay, uncrossed}
use hyperliquid_cpp.Md.OrderBook.Refinement.{view-overlay_top}
use hyperliquid_cpp.Md.OrderBook.Compaction.{view-drop_crossing}
use hyperliquid_cpp.Md.OrderBook.Invariant.{
  IsBook, view-apply_snapshot, History, Event, History-IsBook,
}
use hyperliquid_cpp.Md.OrderBook.TopOfBook.{apply_bbo-IsUncrossed, IsUncrossed, apply_bbo-top}
use hyperliquid_cpp.Md.OrderBook.Depth.{vwap_for_size-Fills, Fills, IsHalf, mid_between}

abbrev level : ℕ → ℕ → BookLevel
level px sz = record { px = from_raw (pos px); sz = from_raw (pos sz); n = 1 }

-- Bids at 99 and 98, asks at 101 and 102, the rest of the arrays unused.
abbrev two_bids : Levels
two_bids = record { levels = level 99 10 ∷ level 98 20 ∷ replicate 62 empty_level; count = 2 }

abbrev two_asks : Levels
two_asks = record { levels = level 101 10 ∷ level 102 20 ∷ replicate 62 empty_level; count = 2 }

abbrev book : OrderBook
book = record {
  bids = two_bids;
  asks = two_asks;
  time_ms = pos 5;
  snapshot_time_ms = pos 5;
  updates = 1;
}

-- The best bid moves up through the best ask.
abbrev moved : BboMsg
moved = record {
  time_ms = pos 6;
  has_bid = true;
  has_ask = true;
  bid = level 101 5;
  ask = level 102 7;
}

moved_book : ◌≡◌ {A = List BookLevel} (view (apply_bbo book moved).0.asks) (level 102 7 ∷ [])
unfolding apply_bbo overlay_top count_better resize_top insert_top drop_crossing compact
moved_book = refl

book-IsBook : IsBook book
book-IsBook = record {
  bids = record { side = record { full = refl; within = omega arith }; sorted = omega arith };
  asks = record { side = record { full = refl; within = omega arith }; sorted = omega arith };
}

view-overlay_top_example :
    (view (overlay_top two_bids (level 100 5) true)
      ≡ overlay true (level 100 5) (level 99 10 ∷ level 98 20 ∷ []))
    × IsSide (overlay_top two_bids (level 100 5) true)
view-overlay_top_example = view-overlay_top two_bids (level 100 5) true book-IsBook.bids.side

view-drop_crossing_example :
    (view (drop_crossing two_bids (from_raw (pos 99)) true)
      ≡ uncrossed true (from_raw (pos 99)) (level 99 10 ∷ level 98 20 ∷ []))
    × IsSide (drop_crossing two_bids (from_raw (pos 99)) true)
view-drop_crossing_example =
    view-drop_crossing two_bids (from_raw (pos 99)) true book-IsBook.bids.side

abbrev shot : L2BookMsg
shot = record { time_ms = pos 9; bids = level 97 1 ∷ []; asks = level 103 1 ∷ [] }

view-apply_snapshot_example :
    (view (apply_snapshot book shot).bids ≡ level 97 1 ∷ [])
    × (view (apply_snapshot book shot).asks ≡ level 103 1 ∷ [])
view-apply_snapshot_example = view-apply_snapshot book shot book-IsBook

History-IsBook_example : IsBook (apply_bbo book moved).0
History-IsBook_example =
    History-IsBook book-IsBook (History.next History.here (Event.bbo book moved))

apply_bbo-IsUncrossed_example : IsUncrossed (apply_bbo book moved).0
apply_bbo-IsUncrossed_example = apply_bbo-IsUncrossed book moved book-IsBook refl

apply_bbo-top_example :
    (best_bid (apply_bbo book moved).0 ≡ some (level 101 5))
    × (best_ask (apply_bbo book moved).0 ≡ some (level 102 7))
    × (is_valid (apply_bbo book moved).0 ≡ true)
apply_bbo-top_example = apply_bbo-top book moved book-IsBook refl refl refl (omega arith)

vwap_for_size-Fills_example :
    Fills
      (level 101 10 ∷ level 102 20 ∷ [])
      (pos 25)
      (vwap_for_size book Side.buy (from_raw (pos 25)))
    × Fills (view book.bids) (pos 25) (vwap_for_size book Side.sell (from_raw (pos 25)))
vwap_for_size-Fills_example =
    vwap_for_size-Fills book (from_raw (pos 25)) (omega arith) (omega arith) (omega arith)

-- 10 at 101 and 15 at 102 cost 2540, which is 101.6 for each of the 25.
buy_average : vwap_for_size book Side.buy (from_raw (pos 25)) ≡ some (from_raw (pos 101))
unfolding vwap_for_size vwap_loop taker_depth tdiv ◌+ℤ◌ ◌-ℤ◌ ◌*ℤ◌
buy_average = refl

book_valid : is_valid book ≡ true
unfolding is_valid
book_valid = refl

mid_between_example :
    IsInt64 (pos 99 +ℤ pos 101)
    × IsHalf (pos 99) (pos 101) (mid book).raw
    × (pos 99 ≤ℤ (mid book).raw)
    × ((mid book).raw <ℤ pos 101)
mid_between_example = mid_between book book_valid (omega arith) (omega arith)

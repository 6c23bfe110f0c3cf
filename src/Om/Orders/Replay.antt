-- ===== src/Om/Orders/Replay.antt =====
-- src/om/ExchangeClient.cpp: the trade ids that `onUserFills` remembers, and fills that come again.
use hyperliquid_cpp.Base.{
  ℕ, suc, ◌+◌, ◌≤◌, ◌∙◌, ap, ◌≡◌, refl, Bool, true, false, ◌&&◌, ◌||◌, not, List, [], ◌∷◌, ◌==◌,
  ltb, if_cases, arith, option_cases, ◌++◌, length, length-append, All,
}
use hyperliquid_cpp.Core.Hex.{Cloid}
use hyperliquid_cpp.Om.Orders.{Tracked, Fill, UserFillsMsg, Client, max_remembered_tids}
use hyperliquid_cpp.Om.Orders.Table.{Held, hold, store, set_oid, emit, same_emitted, news}
use hyperliquid_cpp.Om.Orders.Streams.{
  known, contains, remember, move_position, add_fill, fill_order, on_new_fill, on_fill, fill_loop,
  on_user_fills,
}

-- Nothing that was remembered is forgotten, at most `n` trades are new, and the mark of the first
-- snapshot stays.
record Remembers (n : ℕ) (s s' : Client) : Type 0 where
  kept : (tid : ℕ) → contains s.seen_tids tid ≡ true → contains s'.seen_tids tid ≡ true
  grown : length s'.seen_tid_order ≤ length s.seen_tid_order + n
  marked : s'.fills_snapshot_seen ≡ s.fills_snapshot_seen

Remembers-trans :
    (m n k : ℕ) (a b c : Client) → m + n ≡ k → Remembers m a b → Remembers n b c → Remembers k a c
Remembers-trans m n k a b c e ab bc = record {
  kept = λ tid h. bc.kept tid (ab.kept tid h);
  grown = omega (arith, ab.grown, bc.grown);
  marked = bc.marked ∙ ab.marked;
}

unchanged : (n : ℕ) (s : Client) → Remembers n s s
unchanged n s = record { kept = λ tid h. h; grown = omega arith; marked = refl }

emit-Remembers : (s : Client) (key : Cloid) (h : Held) → Remembers 0 s (emit s key h)
unfolding emit store
emit-Remembers s key h =
    if_cases (Remembers 0 s) (same_emitted h.tracked.emitted (news h.tracked.order))
      (λ e. record { kept = λ tid h. h; grown = omega arith; marked = refl })
      (λ e. record { kept = λ tid h. h; grown = omega arith; marked = refl })

fill_order-Remembers :
    (s : Client) (key : Cloid) (t : Tracked) (f : Fill) → Remembers 0 s (fill_order s key t f)
unfolding fill_order
fill_order-Remembers s key t f =
    if_cases (Remembers 0 s)
      (not (f.oid == 0) && not (t.order.oid == 0) && not (f.oid == t.order.oid))
      (λ e.
        if_cases (Remembers 0 s) (ltb f.oid t.order.oid) (λ old. unchanged 0 s)
          (λ newer.
            let g = set_oid (hold s t) f.oid in
            emit-Remembers s key (record g { tracked = add_fill g.tracked f })))
      (λ e. emit-Remembers s key (record (hold s t) { tracked = add_fill t f }))

on_new_fill-Remembers : (s : Client) (f : Fill) → Remembers 0 s (on_new_fill s f)
unfolding on_new_fill move_position
on_new_fill-Remembers s f =
    option_cases (Remembers 0 s) (known s f.cloid f.oid)
      (λ e. record { kept = λ tid h. h; grown = omega arith; marked = refl })
      (λ kt e.
        let later = fill_order-Remembers _ kt.0 kt.1 f in
        record { kept = later.kept; grown = later.grown; marked = later.marked })

-- A trade that fits into the window is remembered, and none is forgotten for it.
remember-Remembers :
    (s : Client) (tid : ℕ)
    → length s.seen_tid_order + 1 ≤ max_remembered_tids
    → Remembers 1 s (remember s tid) × (contains (remember s tid).seen_tids tid ≡ true)
unfolding remember contains
remember-Remembers s tid room =
    let order = s.seen_tid_order ++ tid ∷ [] in
    let grows = length-append s.seen_tid_order (tid ∷ []) in
    if_cases (λ (t : Client). Remembers 1 s t × (contains t.seen_tids tid ≡ true))
      (ltb max_remembered_tids (length order)) (λ e. absurd (ground (arith, grows)))
      (λ e. (
        record { kept = λ x h. ground arith; grown = omega (arith, grows); marked = refl },
        ground arith,
      ))

on_fill-Remembers :
    (historical : Bool) (s : Client) (f : Fill)
    → length s.seen_tid_order + 1 ≤ max_remembered_tids
    → Remembers 1 s (on_fill historical s f)
      × (contains (on_fill historical s f).seen_tids f.tid ≡ true)
unfolding on_fill
on_fill-Remembers historical s f room =
    let P : Client → Type 0 = λ t. Remembers 1 s t × (contains t.seen_tids f.tid ≡ true) in
    if_cases P (contains s.seen_tids f.tid) (λ e. (unchanged 1 s, e))
      (λ e.
        let r = remember s f.tid in
        let (first, own) = remember-Remembers s f.tid room in
        if_cases P historical (λ e. (first, own))
          (λ e.
            let second = on_new_fill-Remembers r f in
            (
              Remembers-trans 1 0 1 s r (on_new_fill r f) (omega arith) first second,
              second.kept f.tid own,
            )))

abbrev IsSeen : Client → Fill → Type 0
IsSeen s f = contains s.seen_tids f.tid ≡ true

fill_loop-Remembers :
    (historical : Bool) (s : Client) (fs : List Fill)
    → length s.seen_tid_order + length fs ≤ max_remembered_tids
    → Remembers (length fs) s (fill_loop historical s fs)
      × All (IsSeen (fill_loop historical s fs)) fs
unfolding fill_loop
fill_loop-Remembers historical s [] room = (unchanged 0 s, tt)
fill_loop-Remembers historical s (f ∷ fs) room =
    let t = on_fill historical s f in
    let (first, own) = on_fill-Remembers historical s f (omega arith) in
    let (rest, seen) = fill_loop-Remembers historical t fs (omega (arith, first.grown)) in
    (
      Remembers-trans 1 (length fs) (suc (length fs)) s t (fill_loop historical t fs) (omega arith)
          first rest,
      (rest.kept f.tid own, seen),
    )

fill_loop-seen :
    (historical : Bool) (s : Client) (fs : List Fill)
    → All (IsSeen s) fs
    → fill_loop historical s fs ≡ s
unfolding fill_loop on_fill
fill_loop-seen historical s [] seen = refl
fill_loop-seen historical s (f ∷ fs) seen =
    let same : on_fill historical s f ≡ s = rw seen.0 refl in
    ap (λ (t : Client). fill_loop historical t fs) same ∙ fill_loop-seen historical s fs seen.1

again : (a b : Bool) → a || (a || b) ≡ a || b
again true b = refl
again false b = refl

-- While the trades of a message fit into the window of remembered ones, the same message of fills
-- that comes again, as a snapshot or not, changes nothing.
pub on_user_fills-again :
    (s : Client) (msg : UserFillsMsg)
    → length s.seen_tid_order + length msg.fills ≤ max_remembered_tids
    → on_user_fills (on_user_fills s msg) msg ≡ on_user_fills s msg
unfolding on_user_fills
on_user_fills-again s msg room =
    let marked = msg.is_snapshot || s.fills_snapshot_seen in
    let historical = msg.is_snapshot && not s.fills_snapshot_seen in
    let start = record s { fills_snapshot_seen = marked } in
    let t = fill_loop historical start msg.fills in
    let (first, seen) = fill_loop-Remembers historical start msg.fills room in
    let same : msg.is_snapshot || t.fills_snapshot_seen ≡ t.fills_snapshot_seen =
      rw first.marked (again msg.is_snapshot s.fills_snapshot_seen) in
    fill_loop-seen (msg.is_snapshot && not t.fills_snapshot_seen)
      (record t { fills_snapshot_seen = msg.is_snapshot || t.fills_snapshot_seen }) msg.fills seen
    ∙ ap (λ (b : Bool). record t { fills_snapshot_seen = b }) same

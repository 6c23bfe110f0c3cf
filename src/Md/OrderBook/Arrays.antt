-- ===== src/Md/OrderBook/Arrays.antt =====
-- The array moves of `overlayTop`, seen as the list of visible levels.
use hyperliquid_cpp.Base.{
  ℕ, suc, ◌+◌, ◌-◌, ◌≤◌, ◌<◌, ◌≡◌, sym, ap, ◌∙◌, min, List, [], ◌∷◌, ◌++◌, ltb, ◌==◌, length, take,
  drop, set, arith, Bool-cases, inl, inr, ==_iff, ltb→lt, drop-uncons, length-set, length-append,
  take-set_zero, take-take-min, take-append_le, take_all, take-take, length-take, length-drop,
}
use hyperliquid_cpp.Md.OrderBook.{
  BookLevel, Levels, max_levels, empty_level, memmove, at, view, resize_top, insert_top,
}
use hyperliquid_cpp.Md.OrderBook.Spec.{IsSide}

length-memmove :
    (xs : List BookLevel) (dst src n : ℕ)
    → dst + n ≤ length xs
    → src + n ≤ length xs
    → length (memmove xs dst src n) ≡ length xs
length-memmove xs dst src n h k = omega (
  arith,
  length-append (take dst xs) (take n (drop src xs) ++ drop (dst + n) xs),
  length-append (take n (drop src xs)) (drop (dst + n) xs),
  length-take dst xs,
  length-take n (drop src xs),
  length-drop src xs,
  length-drop (dst + n) xs,
)

-- `n` entries moved to the front, and to the second place, seen from the front.
take-memmove_zero :
    (xs : List BookLevel) (src n : ℕ)
    → src + n ≤ length xs
    → take n (memmove xs 0 src n) ≡ take n (drop src xs)
take-memmove_zero xs src n h =
    take-append_le n (take n (drop src xs)) _
      (omega (arith, length-take n (drop src xs), length-drop src xs))
    ∙ take-take n n (drop src xs) (omega arith)

take-set-memmove_one :
    (xs : List BookLevel) (src n : ℕ) (best : BookLevel)
    → 0 < length xs
    → src + n ≤ length xs
    → take (suc n) (set (memmove xs 1 src n) 0 best) ≡ best ∷ take n (drop src xs)
take-set-memmove_one [] src n best h k = elim h [ ]
take-set-memmove_one (x ∷ xs) src n best h k = ap (◌∷◌ best) (
    take-append_le n (take n (drop src (x ∷ xs))) _
      (omega (arith, length-take n (drop src (x ∷ xs)), length-drop src (x ∷ xs)))
    ∙ take-take n n (drop src (x ∷ xs)) (omega arith))

-- The visible levels from index `d` on.
abbrev pub visible_from : Levels → ℕ → List BookLevel
visible_from s d = take (s.count - d) (drop d s.levels)

-- The list view of the three ways to put a level on top.
module _ (s : Levels) (v : IsSide s) (best : BookLevel) (d : ℕ) (le : d ≤ s.count) where
  pub length-visible_from : length (visible_from s d) ≡ s.count - d
  length-visible_from =
      omega (
        arith,
        v.full,
        v.within,
        length-take (s.count - d) (drop d s.levels),
        length-drop d s.levels,
      )

  set_head :
      (c : ℕ) (xs : List BookLevel) (l : BookLevel) (ls : List BookLevel)
      → take c xs ≡ l ∷ ls
      → take c (set xs 0 best) ≡ best ∷ ls
  set_head c xs l ls e = rw (take-set_zero c xs best, e)

  pub view-resize_top :
      d < s.count
      → (l : BookLevel) (ls : List BookLevel) → (visible_from s d) ≡ l ∷ ls
      → (view (resize_top s d best) ≡ best ∷ ls) × IsSide (resize_top s d best)
  unfolding resize_top
  view-resize_top h l ls e = elim (Bool-cases (d == 0)) [
    | inl z ↦
        let e' : d ≡ 0 = (==_iff d 0).0 z in
        let c' : s.count - 0 ≡ s.count = omega arith in
        rw z (
          set_head s.count s.levels l ls (rw (e', c') at e),
          record { full = omega (arith, length-set s.levels 0 best, v.full); within = v.within },
        )
    | inr nz ↦ rw nz (
      set_head (s.count - d) (memmove s.levels 0 d (s.count - d)) l ls
          (take-memmove_zero s.levels d (s.count - d) (omega (arith, v.full, v.within)) ∙ e),
      record {
        full = omega (
          arith,
          length-set (memmove s.levels 0 d (s.count - d)) 0 best,
          length-memmove s.levels 0 d (s.count - d),
          v.full,
          v.within,
        );
        within = omega (arith, v.within);
      },
    )
  ]

  -- The array after `best` is put in front of `n` entries moved from `src` on.
  placed :
      (src n : ℕ)
      → src + n ≤ max_levels
      → 1 + n ≤ max_levels
      → (take (suc n) (set (memmove s.levels 1 src n) 0 best) ≡ best ∷ take n (drop src s.levels))
        × (length (set (memmove s.levels 1 src n) 0 best) ≡ max_levels)
  placed src n h k = (
    take-set-memmove_one s.levels src n best (omega (arith, v.full)) (omega (arith, v.full)),
    omega (
      arith,
      length-set (memmove s.levels 1 src n) 0 best,
      length-memmove s.levels 1 src n (omega (arith, v.full)) (omega (arith, v.full)),
      v.full,
    ),
  )

  insert_full : d ≡ 0 → take 63 (visible_from s d) ≡ take (min s.count 63) (drop 0 s.levels)
  insert_full e =
      let c' : s.count - 0 ≡ s.count = omega arith in rw (e, c') (take-take-min 63 s.count s.levels)

  short : 1 < d → take 63 (visible_from s d) ≡ (visible_from s d)
  short h = take_all 63 (visible_from s d) (omega (arith, length-visible_from, v.within))

  one_dropped : d ≡ 1 → take s.count s.levels ≡ at s.levels 0 ∷ (visible_from s d)
  one_dropped e =
      let c' : s.count ≡ suc (s.count - 1) = omega arith in
      let u : s.levels ≡ at s.levels 0 ∷ drop 1 s.levels =
        drop-uncons 0 s.levels empty_level (omega (arith, v.full)) in
      ap (λ (n : ℕ). take n s.levels) c' ∙ ap (take (suc (s.count - 1))) u ∙ rw e

  pub view-insert_top :
      (view (insert_top s d best) ≡ take max_levels (best ∷ (visible_from s d)))
      × IsSide (insert_top s d best)
  unfolding insert_top
  view-insert_top = elim (Bool-cases (d == 0)) [
    | inl z ↦
        let e : d ≡ 0 = (==_iff d 0).0 z in
        let k : ℕ = min s.count 63 in
        let k' : k + 1 ≡ suc k = omega arith in
        let (p, q) = placed 0 k (omega arith) (omega arith) in
        rw z (
          rw k' (p ∙ sym (ap (◌∷◌ best) (insert_full e))),
          record { full = q; within = omega arith },
        )
    | inr nz ↦ elim (Bool-cases (ltb 1 d)) [
      | inl two ↦
          let big : 1 < d = ltb→lt 1 d two in
          let c' : s.count - (d - 1) ≡ suc (s.count - d) = omega arith in
          let (p, q) = placed d (s.count - d) (omega (arith, v.within)) (omega (arith, v.within)) in
          rw (nz, two)
            (
              rw c' (p ∙ sym (ap (◌∷◌ best) (short big))),
              record { full = q; within = omega (arith, v.within) },
            )
      | inr one ↦
          let e : d ≡ 1 = ground arith in
          rw (nz, one)
            (
              set_head s.count s.levels (at s.levels 0) (visible_from s d) (one_dropped e)
                  ∙ sym (
                      ap (◌∷◌ best) (
                        take_all 63 (visible_from s d)
                          (omega (arith, length-visible_from, e, v.within)))),
              record {
                full = omega (arith, length-set s.levels 0 best, v.full);
                within = v.within;
              },
            )
    ]
  ]

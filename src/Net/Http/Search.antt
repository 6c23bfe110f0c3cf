-- ===== src/Net/Http/Search.antt =====
-- The search for a pattern in a text that grows at its end.
use hyperliquid_cpp.Base.{
  ℕ, zero, suc, ◌+◌, ◌≤◌, ◌<◌, ◌≡◌, refl, sym, ap, ◌∙◌, inl, inr, Bool, true, false, ◌&&◌, Option,
  none, some, List, [], ◌∷◌, ◌++◌, arith, leb, ◌==◌, Bool-cases, length, drop,
}
use hyperliquid_cpp.Net.Http.Text.{starts_by, starts_with, shifted, find}

starts_with-length : (s pattern : List ℕ) → starts_with s pattern ≡ true → length pattern ≤ length s
unfolding starts_with starts_by
starts_with-length s [] h = omega arith
starts_with-length [] (n ∷ pattern) h = absurd (ground arith)
starts_with-length (c ∷ s) (n ∷ pattern) h = ground (arith, starts_with-length s pattern)

starts_with-append :
    (s r pattern : List ℕ)
    → length pattern ≤ length s
    → starts_with (s ++ r) pattern ≡ starts_with s pattern
unfolding starts_with starts_by
starts_with-append [] r [] h = elim r [ [] ↦ refl | x ∷ xs ↦ refl ]
starts_with-append (c ∷ s) r [] h = refl
starts_with-append [] r (n ∷ pattern) h = absurd (omega arith)
starts_with-append (c ∷ s) r (n ∷ pattern) h =
    ap (λ (b : Bool). (c == n) && b) (starts_with-append s r pattern (omega arith))

true_not_false : ¬ (true ≡ false)
true_not_false h = cc

shifted-some : (o : Option ℕ) (j : ℕ) → shifted o ≡ some j → (i : ℕ) × (o ≡ some i × j ≡ suc i)
unfolding shifted
shifted-some none j h = absurd (ground arith)
shifted-some (some i) j h = (i, (refl, ground arith))

shifted-none : (o : Option ℕ) → shifted o ≡ none → o ≡ none
unfolding shifted
shifted-none none h = refl
shifted-none (some i) h = absurd (ground arith)

unfoldable pub shift_by : ℕ → Option ℕ → Option ℕ
shift_by zero o = o
shift_by (suc k) o = shifted (shift_by k o)

pub shift_by-none : (k : ℕ) → shift_by k none ≡ none
unfolding shift_by shifted
shift_by-none zero = refl
shift_by-none (suc k) = ap shifted (shift_by-none k)

pub shift_by-some : (k i : ℕ) → shift_by k (some i) ≡ some (k + i)
unfolding shift_by shifted
shift_by-some zero i = ap some (omega arith)
shift_by-some (suc k) i = ap shifted (shift_by-some k i) ∙ ap some (omega arith)

module _ (pattern : List ℕ) where
  -- What a search that finds nothing, and one that finds something, says of the rest.
  find-none :
      (c : ℕ) (s : List ℕ)
      → find pattern (c ∷ s) ≡ none
      → (starts_with (c ∷ s) pattern ≡ false) × (find pattern s ≡ none)
  unfolding find
  find-none c s h = elim (Bool-cases (starts_with (c ∷ s) pattern)) [
    | inl t ↦ absurd (ground (arith, rw t at h))
    | inr t ↦ (t, shifted-none _ (rw t at h))
  ]

  find_here :
      (c : ℕ) (s : List ℕ) → starts_with (c ∷ s) pattern ≡ true → find pattern (c ∷ s) ≡ some 0
  unfolding find
  find_here c s h = rw h refl

  find_later :
      (c : ℕ) (s : List ℕ)
      → starts_with (c ∷ s) pattern ≡ false
      → find pattern (c ∷ s) ≡ shifted (find pattern s)
  unfolding find
  find_later c s h = rw h refl

  pub find-append_some :
      (s r : List ℕ) (j : ℕ)
      → 0 < length pattern
      → find pattern s ≡ some j
      → (find pattern (s ++ r) ≡ some j) × (j + length pattern ≤ length s)
  unfolding shifted find
  find-append_some [] r j pos h = elim (Bool-cases (starts_with [] pattern)) [
    | inl t ↦ absurd (omega (arith, starts_with-length [] pattern t))
    | inr t ↦ absurd (ground (arith, rw t at h))
  ]
  find-append_some (c ∷ s) r j pos h = elim (Bool-cases (starts_with (c ∷ s) pattern)) [
    | inl t ↦
        let fits = starts_with-length (c ∷ s) pattern t in
        (
          find_here c (s ++ r) (starts_with-append (c ∷ s) r pattern fits ∙ t)
              ∙ sym (find_here c s t)
              ∙ h,
          ground (arith, fits, sym (find_here c s t) ∙ h),
        )
    | inr t ↦
        let (i, (e, je)) = shifted-some (find pattern s) j (sym (find_later c s t) ∙ h) in
        let ih = find-append_some s r i pos e in
        (
          find_later c (s ++ r) (starts_with-append (c ∷ s) r pattern (omega (arith, ih.1)) ∙ t)
              ∙ ap shifted ih.0
              ∙ ap some (sym je),
          omega (arith, ih.1, je),
        )
  ]

  -- An occurrence that begins in a text without one ends behind it.
  pub find-none-append :
      (s r : List ℕ) (j : ℕ)
      → 0 < length pattern
      → find pattern s ≡ none
      → find pattern (s ++ r) ≡ some j
      → length s < j + length pattern
  unfolding shifted
  find-none-append [] r j pos h k = omega arith
  find-none-append (c ∷ s) r j pos h k = elim (Bool-cases (starts_with (c ∷ (s ++ r)) pattern)) [
    | inl t ↦ elim (Bool-cases (leb (length pattern) (length (c ∷ s)))) [
      | inl short ↦ absurd (
          true_not_false
            (sym t ∙ starts_with-append (c ∷ s) r pattern (ground arith) ∙ (find-none c s h).0))
      | inr long ↦ ground arith
    ]
    | inr t ↦
        let (i, (e, je)) =
          shifted-some (find pattern (s ++ r)) j (sym (find_later c (s ++ r) t) ∙ k) in
        omega (arith, find-none-append s r i pos (find-none c s h).1 e, je)
  ]

  -- A search may skip what was searched before, but for a pattern's length less one.
  pub find-drop :
      (k : ℕ) (s r : List ℕ)
      → find pattern s ≡ none
      → k + length pattern ≤ length s + 1
      → 0 < length pattern
      → find pattern (s ++ r) ≡ shift_by k (find pattern (drop k (s ++ r)))
  unfolding shifted shift_by
  find-drop zero s r h le pos = refl
  find-drop (suc k) [] r h le pos = absurd (omega arith)
  find-drop (suc k) (c ∷ s) r h le pos =
      let (t, f) = find-none c s h in
      find_later c (s ++ r) (starts_with-append (c ∷ s) r pattern (omega arith) ∙ t)
      ∙ ap shifted (find-drop k s r f (omega arith) pos)

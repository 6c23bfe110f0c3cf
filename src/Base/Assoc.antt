-- ===== src/Base/Assoc.antt =====
-- Maps as association lists: one entry for a key, found by a test of keys.
use mathlib.Core.Path.{◌≡◌, refl, sym, ap, ◌∙◌}
use mathlib.Core.Logic.{inl, inr}
use mathlib.Core.Bool.{Bool, true, false}
use mathlib.Core.Option.{Option, none, some}
use mathlib.Core.List.{List, [], ◌∷◌}
use hyperliquid_cpp.Base.Tests.{if◌then◌else◌, Bool-cases}

module _ {ℓ κ} {K : Type ℓ} {V : Type κ} (same : K → K → Bool) where
  unfoldable pub lookup : List (K × V) → K → Option V
  lookup [] k = none
  lookup ((j, v) ∷ m) k = if same j k then some v else lookup m k

  -- `m[k] = v`.
  unfoldable pub insert : List (K × V) → K → V → List (K × V)
  insert [] k v = (k, v) ∷ []
  insert ((j, w) ∷ m) k v =
      let rest = insert m k v in if same j k then (k, v) ∷ m else (j, w) ∷ rest

  unfoldable pub erase_key : List (K × V) → K → List (K × V)
  erase_key [] k = []
  erase_key ((j, w) ∷ m) k = let rest = erase_key m k in if same j k then rest else (j, w) ∷ rest

  module _ (same_sound : (a b : K) → same a b ≡ true → a ≡ b)
      (same_refl : (a : K) → same a a ≡ true) where
    hit : (j k : K) (v : V) (m : List (K × V)) → same j k ≡ true → lookup ((j, v) ∷ m) k ≡ some v
    unfolding lookup
    hit j k v m e = rw e refl

    miss :
        (j k : K) (v : V) (m : List (K × V)) → same j k ≡ false → lookup ((j, v) ∷ m) k ≡ lookup m k
    unfolding lookup
    miss j k v m e = rw e refl

    pub lookup-insert : (m : List (K × V)) (k : K) (v : V) → lookup (insert m k v) k ≡ some v
    unfolding insert
    lookup-insert [] k v = hit k k v [] (same_refl k)
    lookup-insert ((j, w) ∷ m) k v = elim (Bool-cases (same j k)) [
      | inl e ↦ rw e (hit k k v m (same_refl k))
      | inr e ↦ rw e (miss j k w (insert m k v) e ∙ lookup-insert m k v)
    ]

    pub lookup-insert_ne :
        (m : List (K × V)) (k j : K) (v : V)
        → same k j ≡ false
        → lookup (insert m k v) j ≡ lookup m j
    unfolding insert
    lookup-insert_ne [] k j v e = miss k j v [] e
    lookup-insert_ne ((i, w) ∷ m) k j v e = elim (Bool-cases (same i k)) [
      | inl a ↦
          let apart : same i j ≡ false = ap (λ (x : K). same x j) (same_sound i k a) ∙ e in
          rw a (miss k j v m e ∙ sym (miss i j w m apart))
      | inr a ↦ rw a (elim (Bool-cases (same i j)) [
        | inl b ↦ hit i j w _ b ∙ sym (hit i j w m b)
        | inr b ↦ miss i j w _ b ∙ lookup-insert_ne m k j v e ∙ sym (miss i j w m b)
      ])
    ]

    pub lookup-erase_key : (m : List (K × V)) (k : K) → lookup (erase_key m k) k ≡ none
    unfolding erase_key
    lookup-erase_key [] k = unfold lookup in refl
    lookup-erase_key ((j, w) ∷ m) k = elim (Bool-cases (same j k)) [
      | inl e ↦ rw e (lookup-erase_key m k)
      | inr e ↦ rw e (miss j k w (erase_key m k) e ∙ lookup-erase_key m k)
    ]

    pub lookup-erase_key_ne :
        (m : List (K × V)) (k j : K) → same k j ≡ false → lookup (erase_key m k) j ≡ lookup m j
    unfolding erase_key
    lookup-erase_key_ne [] k j e = refl
    lookup-erase_key_ne ((i, w) ∷ m) k j e = elim (Bool-cases (same i k)) [
      | inl a ↦
          let apart : same i j ≡ false = ap (λ (x : K). same x j) (same_sound i k a) ∙ e in
          rw a (lookup-erase_key_ne m k j e ∙ sym (miss i j w m apart))
      | inr a ↦ rw a (elim (Bool-cases (same i j)) [
        | inl b ↦ hit i j w _ b ∙ sym (hit i j w m b)
        | inr b ↦ miss i j w _ b ∙ lookup-erase_key_ne m k j e ∙ sym (miss i j w m b)
      ])
    ]

-- ===== src/Om/Orders/Consistency/Places.antt =====
-- src/om/ExchangeClient.cpp: an entry in hand, and the oids it takes.
use hyperliquid_cpp.Base.{
  ℕ, ◌≡◌, refl, sym, ap, ◌∙◌, ◌⊎◌, ◌≢◌, inl, inr, true, false, Option, none, some, List, arith,
  ◌==◌, Bool-cases, if_cases, Option-cases,
}
use mathlib.Core.Bool.{false≢true}
use mathlib.Core.Option.{some-injective}
use hyperliquid_cpp.Base.Assoc.{
  lookup, insert, erase_key, lookup-insert, lookup-insert_ne, lookup-erase_key, lookup-erase_key_ne,
}
use hyperliquid_cpp.Core.Hex.{Cloid}
use hyperliquid_cpp.Om.Orders.{Tracked, Client}
use hyperliquid_cpp.Om.Orders.Table.{
  same_cloid, same_oid, find, Held, hold, track, set_oid, next_generation,
}

-- Every entry has the cloid it is found under, and every oid of the index leads to an entry that
-- has this oid, which is not zero.
pub record IsAgreed (orders : List (Cloid × Tracked)) (oids : List (ℕ × Cloid)) : Type 0 where
  pub keys : (c : Cloid) (t : Tracked) → find orders c ≡ some t → t.order.cloid ≡ c
  pub index :
      (oid : ℕ) (c : Cloid)
      → lookup same_oid oids oid ≡ some c
      → (oid ≢ 0) × ((t : Tracked) × (find orders c ≡ some t) × (t.order.oid ≡ oid))

abbrev pub IsConsistent : Client → Type 0
IsConsistent s = IsAgreed s.orders s.oid_index

pub same_cloid_refl : (c : Cloid) → same_cloid c c ≡ true
unfolding same_cloid
same_cloid_refl c = ground arith

pub same_cloid_eq : (a b : Cloid) → same_cloid a b ≡ true → a ≡ b
unfolding same_cloid
same_cloid_eq a b h = ground arith

pub same_oid_refl : (a : ℕ) → same_oid a a ≡ true
unfolding same_oid
same_oid_refl a = ground arith

pub same_oid_eq : (a b : ℕ) → same_oid a b ≡ true → a ≡ b
unfolding same_oid
same_oid_eq a b h = ground arith

-- An entry of the index that leads to another key than the one in hand.
abbrev pub IsElsewhere : List (Cloid × Tracked) → Cloid → ℕ → Cloid → Type 0
IsElsewhere orders key o c =
    (same_cloid key c ≡ false) × ((t : Tracked) × (find orders c ≡ some t) × (t.order.oid ≡ o))

-- What an entry in hand must satisfy to go back under its key.
unfoldable pub Fits : List (Cloid × Tracked) → Cloid → Cloid → ℕ → List (ℕ × Cloid) → Type 0
Fits orders key cloid oid index =
    (cloid ≡ key)
    × ((o : ℕ) (c : Cloid)
        → lookup same_oid index o ≡ some c
        → (o ≢ 0) × (((c ≡ key) × (oid ≡ o)) ⊎ IsElsewhere orders key o c))

abbrev pub IsFit : List (Cloid × Tracked) → Cloid → Held → Type 0
IsFit orders key h = Fits orders key h.tracked.order.cloid h.tracked.order.oid h.index

pub none_ne_some {ℓ} : {A : Type ℓ} {a : A} → ¬ (◌≡◌ {A = Option A} none (some a))
none_ne_some e = cc

module _ (s : Client) (key : Cloid) (ok : IsConsistent s) where
  pub hold-IsFit : (t : Tracked) → find s.orders key ≡ some t → IsFit s.orders key (hold s t)
  unfolding Fits
  hold-IsFit t e = (
    ok.keys key t e,
    λ o c at.
        let (some_oid, (u, found, same)) = ok.index o c at in
        (
          some_oid,
          elim (Bool-cases (same_cloid key c)) [
            | inl y ↦
                let k : c ≡ key = sym (same_cloid_eq key c y) in
                let both : t ≡ u =
                  some-injective _ _ (sym e ∙ ap (find s.orders) (sym k) ∙ found) in
                inl (k, ap (λ (x : Tracked). x.order.oid) both ∙ same)
            | inr n ↦ inr (n, (u, found, same))
          ],
        ),
  )

  fresh-Fits : (oid : ℕ) → find s.orders key ≡ none → Fits s.orders key key oid s.oid_index
  unfolding Fits
  fresh-Fits oid e = (
    refl,
    λ o c at.
        let (some_oid, (u, found, same)) = ok.index o c at in
        (
          some_oid,
          elim (Bool-cases (same_cloid key c)) [
            | inl y ↦
                absurd (none_ne_some (sym e ∙ ap (find s.orders) (same_cloid_eq key c y) ∙ found))
            | inr n ↦ inr (n, (u, found, same))
          ],
        ),
  )

  pub track-IsFit : IsFit s.orders key (track s key)
  unfolding track
  track-IsFit = elim (Option-cases (find s.orders key)) [
    | inl e ↦ rw e (fresh-Fits 0 e)
    | inr (t, e) ↦ rw e (let fit = hold-IsFit t e in unfold Fits in (refl, fit.1))
  ]

module _ (orders : List (Cloid × Tracked)) (key : Cloid) where
  -- Every entry of the index leads to another key.
  unfoldable pub Others : List (ℕ × Cloid) → Type 0
  Others index =
      (o : ℕ) (c : Cloid) → lookup same_oid index o ≡ some c → (o ≢ 0) × IsElsewhere orders key o c

  pub erase_key-Others :
      (cloid : Cloid) (oid : ℕ) (index : List (ℕ × Cloid))
      → Fits orders key cloid oid index
      → Others (erase_key same_oid index oid)
  unfolding Fits Others
  erase_key-Others cloid oid index fit o c at = elim (Bool-cases (same_oid oid o)) [
    | inl y ↦ absurd (
        none_ne_some (
          sym (lookup-erase_key same_oid same_oid_eq same_oid_refl index oid)
          ∙ ap (lookup same_oid (erase_key same_oid index oid)) (same_oid_eq oid o y)
          ∙ at))
    | inr n ↦
        let before =
          fit.1 o c
            (sym (lookup-erase_key_ne same_oid same_oid_eq same_oid_refl index oid o n) ∙ at) in
        (
          before.0,
          elim before.1 [
            | inl k ↦ absurd (false≢true (sym n ∙ sym (ap (same_oid oid) k.1) ∙ same_oid_refl oid))
            | inr other ↦ other
          ],
        )
  ]

  pub zero-Others :
      (cloid : Cloid) (oid : ℕ) (index : List (ℕ × Cloid))
      → oid ≡ 0
      → Fits orders key cloid oid index
      → Others index
  unfolding Fits Others
  zero-Others cloid oid index z fit o c at =
      let before = fit.1 o c at in
      (before.0, elim before.1 [ inl k ↦ absurd (before.0 (sym k.1 ∙ z)) | inr other ↦ other ])

  insert-Fits :
      (cloid : Cloid) (oid : ℕ) (index : List (ℕ × Cloid))
      → cloid ≡ key
      → oid ≢ 0
      → Others index
      → Fits orders key cloid oid (insert same_oid index oid cloid)
  unfolding Fits Others
  insert-Fits cloid oid index k some_oid others = (
    k,
    λ o c at. elim (Bool-cases (same_oid oid o)) [
      | inl y ↦
          let e = same_oid_eq oid o y in
          let first =
            sym (lookup-insert same_oid same_oid_eq same_oid_refl index oid cloid)
            ∙ ap (lookup same_oid (insert same_oid index oid cloid)) e
            ∙ at in
          ((λ z. some_oid (e ∙ z)), inl (sym (some-injective _ _ first) ∙ k, e))
      | inr n ↦
          let before =
            others o c (
              sym (lookup-insert_ne same_oid same_oid_eq same_oid_refl index oid o cloid n) ∙ at) in
          (before.0, inr before.1)
    ],
  )

  -- A new oid for the entry in hand.
  pub set_oid-IsFit : (h : Held) (oid : ℕ) → IsFit orders key h → IsFit orders key (set_oid h oid)
  unfolding set_oid next_generation Fits
  set_oid-IsFit h oid fit =
      if_cases (IsFit orders key) _ (λ same. fit)
        (λ other.
          let some_oid : oid ≢ 0 = ground arith in
          if_cases
            (λ (g : Held). IsFit orders key (record {
              tracked = record g.tracked { order = record g.tracked.order { oid = oid } };
              index = insert same_oid g.index oid g.tracked.order.cloid;
            }))
            (h.tracked.order.oid == 0)
            (λ z. insert-Fits _ oid h.index fit.0 some_oid (zero-Others _ _ _ (ground arith) fit))
            (λ n. insert-Fits _ oid _ fit.0 some_oid (erase_key-Others _ _ _ fit)))

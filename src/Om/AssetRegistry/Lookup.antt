-- ===== src/Om/AssetRegistry/Lookup.antt =====
-- What a lookup finds after an insertion and after a load.
use hyperliquid_cpp.Base.{
  ℕ, suc, ◌+◌, ◌%◌, ◌^◌, ◌≡◌, refl, sym, ap, ◌∙◌, inl, inr, Bool, true, not, Option, none, some,
  List, [], ◌∷◌, ◌++◌, append_assoc, append-nil, arith, ◌==◌, if◌then◌else◌, Bool-cases, if_cases,
  length, codes,
}
use hyperliquid_cpp.Base.Texts.{same_text, same_text_eq, same_text_refl}
use hyperliquid_cpp.Core.Json.{Json, field, as_array}
use hyperliquid_cpp.Om.AssetRegistry.{AssetInfo}
use hyperliquid_cpp.Om.AssetRegistry.Loading.{
  find, add, is_perp, without, perp_info, push_named, perp_loop, on_perp_universe, on_perp_meta,
  load_perp_meta,
}

both-same :
    (a info : AssetInfo) (name : List ℕ)
    → same_text a.name name ≡ true
    → same_text info.name name ≡ true
    → same_text a.name info.name ≡ true
both-same a info name t u =
    ap (same_text a.name) (same_text_eq info.name name u ∙ sym (same_text_eq a.name name t))
    ∙ same_text_refl a.name

-- After `add`, a lookup finds the added asset under its name, and under every other name what it
-- found before.
pub find-add :
    (info : AssetInfo) (assets : List AssetInfo) (name : List ℕ)
    → find name (add info assets)
      ≡ (if same_text info.name name then some info else find name assets)
unfolding find add
find-add info [] name = refl
find-add info (a ∷ assets) name = elim (Bool-cases (same_text a.name info.name)) [
  | inl same ↦
      let here : same_text a.name name ≡ same_text info.name name =
        ap (λ z. same_text z name) (same_text_eq a.name info.name same) in
      ap (λ (b : Bool). find name (if b then info ∷ assets else a ∷ add info assets)) same
      ∙ elim (Bool-cases (same_text info.name name)) [
        | inl t ↦ rw t refl
        | inr t ↦ rw (here, t) refl
      ]
  | inr other ↦
      ap (λ (b : Bool). find name (if b then info ∷ assets else a ∷ add info assets)) other
      ∙ rw (find-add info assets name) (elim (Bool-cases (same_text a.name name)) [
        | inl t ↦ elim (Bool-cases (same_text info.name name)) [
          | inl u ↦ absurd (cc (both-same a info name t u, other))
          | inr u ↦ rw (t, u) refl
        ]
        | inr t ↦ rw t refl
      ])
]

perps : ℕ → List Json → List AssetInfo
perps index [] = []
perps index (item ∷ items) =
    let rest = perps ((index + 1) % 2 ^ 32) items in
    if length (perp_info index item).name == 0 then rest else perp_info index item ∷ rest

perp_loop_lem :
    (index : ℕ) (items : List Json) (assets : List AssetInfo) (n : ℕ)
    → perp_loop index items (assets, n)
      ≡ (assets ++ perps index items, n + length (perps index items))
unfolding perp_loop push_named perps
perp_loop_lem index [] assets n = rw (append-nil assets) (ap (λ k. (assets, k)) (omega arith))
perp_loop_lem index (item ∷ items) assets n =
    elim (Bool-cases (length (perp_info index item).name == 0)) [
      | inl nameless ↦ rw nameless (perp_loop_lem ((index + 1) % 2 ^ 32) items assets n)
      | inr named ↦ rw named (
          perp_loop_lem ((index + 1) % 2 ^ 32) items (assets ++ (perp_info index item ∷ [])) (n + 1)
          ∙ (let e : n + 1 + length (perps ((index + 1) % 2 ^ 32) items)
                  ≡ n + suc (length (perps ((index + 1) % 2 ^ 32) items)) =
                omega arith in
              rw
                (
                  e,
                  append_assoc assets (perp_info index item ∷ [])
                      (perps ((index + 1) % 2 ^ 32) items),
                )
                refl))
    ]

pub without-append :
    (b : Bool) (xs ys : List AssetInfo) → without b (xs ++ ys) ≡ without b xs ++ without b ys
unfolding without
without-append b [] ys = refl
without-append b (a ∷ xs) ys =
    elim (Bool-cases (if b then is_perp a.kind else not (is_perp a.kind))) [
      | inl t ↦ rw t (without-append b xs ys)
      | inr t ↦ rw (t, without-append b xs ys) refl
    ]

without-perps : (index : ℕ) (items : List Json) → without true (perps index items) ≡ []
unfolding without perps perp_info is_perp
without-perps index [] = refl
without-perps index (item ∷ items) =
    if_cases (λ xs. without true xs ≡ []) (length (perp_info index item).name == 0)
      (λ t. without-perps ((index + 1) % 2 ^ 32) items)
      (λ t. without-perps ((index + 1) % 2 ^ 32) items)

pub without-without : (b : Bool) (xs : List AssetInfo) → without b (without b xs) ≡ without b xs
unfolding without
without-without b [] = refl
without-without b (a ∷ xs) =
    elim (Bool-cases (if b then is_perp a.kind else not (is_perp a.kind))) [
      | inl t ↦ rw t (without-without b xs)
      | inr t ↦ rw t (rw (t, without-without b xs) refl)
    ]

on_perp_universe-again :
    (assets : List AssetInfo) (o : Option (List Json))
    → (on_perp_universe (on_perp_universe assets o).0 o ≡ on_perp_universe assets o)
      × (without true (on_perp_universe assets o).0 ≡ without true assets)
unfolding on_perp_universe
on_perp_universe-again assets none = (refl, refl)
on_perp_universe-again assets (some items) =
    let ps = perps 0 items in
    let loaded = perp_loop_lem 0 items (without true assets) 0 in
    let kept : without true (without true assets ++ ps) ≡ without true assets =
      without-append true (without true assets) ps
      ∙ rw (without-perps 0 items, without-without true assets) (append-nil _) in
    (rw loaded (rw kept (rw loaded refl)), rw loaded kept)

-- A second load of perpetuals.
pub load_perp_meta-again :
    (parse : List ℕ → Option Json) (assets : List AssetInfo) (text : List ℕ)
    → (load_perp_meta parse (load_perp_meta parse assets text).0 text
        ≡ load_perp_meta parse assets text)
      × (without true (load_perp_meta parse assets text).0 ≡ without true assets)
unfolding load_perp_meta on_perp_meta
load_perp_meta-again parse assets text = go (parse text)
  where
    go :
        (o : Option Json)
        → (on_perp_meta (on_perp_meta assets o).0 o ≡ on_perp_meta assets o)
          × (without true (on_perp_meta assets o).0 ≡ without true assets)
    go none = (refl, refl)
    go (some root) = on_perp_universe-again assets (as_array (field (some root) (codes "universe")))

-- ===== src/Om/Actions/Agreement.antt =====
-- The order action: both encodings spell out one tree.
use hyperliquid_cpp.Base.{
  ℕ, suc, ◌+◌, ◌≡◌, refl, ap, ◌∙◌, false, Option, none, some, List, [], ◌∷◌, ◌++◌, append_assoc,
  arith, ◌==◌, if◌then◌else◌, length, codes,
}
use hyperliquid_cpp.Om.MsgPack.{Call, write_all, map_call}
use hyperliquid_cpp.Core.Hex.{Cloid}
use hyperliquid_cpp.Om.Actions.Wire.{
  TriggerSpec, OrderWire, OrderGrouping, named, priority, BuilderFee,
}
use hyperliquid_cpp.Om.Actions.Order.{
  pack_decimal, pack_type, pack_cloid, is_some, pack_order, json_type, json_cloid, json_order,
  json_list, pack_list, encoded, pack_grouping, json_grouping, pack_builder, append_address,
  json_builder, order_action,
}
use hyperliquid_cpp.Om.Actions.Tree.{
  Value, count_items, count_fields, calls, calls_items, calls_fields, quoted, json_text, json_items,
  json_more_items, json_more_fields, Encodes,
}
use hyperliquid_cpp.Om.Actions.Trees.{
  text_key, type_tree, cloid_field, order_tree, list_tree, grouping_tree, builder_field,
  order_action_tree,
}

pub list_calls {ℓ} :
    {A : Type ℓ} (pack : A → List Call) (tree : A → Value)
    → ((a : A) (rest : List Call) → pack a ++ rest ≡ calls (tree a) rest)
    → (xs : List A) (rest : List Call)
    → pack_list pack xs ++ rest ≡ calls_items (list_tree tree xs) rest
unfolding pack_list list_tree calls_items
list_calls pack tree one [] rest = refl
list_calls pack tree one (x ∷ xs) rest =
    append_assoc (pack x) (pack_list pack xs) rest
    ∙ one x (pack_list pack xs ++ rest)
    ∙ ap (calls (tree x)) (list_calls pack tree one xs rest)

pub count_list {ℓ} :
    {A : Type ℓ} (tree : A → Value) (xs : List A) → length xs ≡ count_items (list_tree tree xs)
unfolding list_tree count_items
count_list tree [] = refl
count_list tree (x ∷ xs) = ap suc (count_list tree xs)

module _ {ℓ} {A : Type ℓ} (element : A → List ℕ) (tree : A → Value)
    (one : (a : A) (rest : List ℕ) → element a ++ rest ≡ json_text (tree a) rest) where
  more_json :
      (i : ℕ) (xs : List A) (rest : List ℕ)
      → json_list element (suc i) xs ++ rest ≡ json_more_items (list_tree tree xs) rest
  unfolding json_list list_tree json_text
  more_json i [] rest = refl
  more_json i (x ∷ xs) rest =
      let e : suc i + 1 ≡ suc (suc i) = omega arith in
      let f : (suc i == 0) ≡ false = ground arith in
      rw (f, e)
        (ap (λ (t : List ℕ). b',' ∷ t)
          (append_assoc (element x) (json_list element (suc (suc i)) xs) rest
            ∙ one x (json_list element (suc (suc i)) xs ++ rest)
            ∙ ap (json_text (tree x)) (more_json (suc i) xs rest)))

  pub list_json :
      (xs : List A) (rest : List ℕ)
      → json_list element 0 xs ++ rest ≡ json_items (list_tree tree xs) rest
  unfolding json_list list_tree json_text
  list_json [] rest = refl
  list_json (x ∷ xs) rest =
      append_assoc (element x) (json_list element 1 xs) rest
      ∙ one x (json_list element 1 xs ++ rest)
      ∙ ap (json_text (tree x)) (more_json 0 xs rest)

type_calls :
    (o : OrderWire) (t : Option TriggerSpec) (rest : List Call)
    → map_call 1 ∷ (pack_type o t ++ rest) ≡ calls (type_tree o t) rest
unfolding pack_type type_tree text_key calls count_fields pack_decimal
type_calls o none rest = refl
type_calls o (some t) rest = refl

cloid_calls :
    (c : Option Cloid) (rest : List Call) → pack_cloid c ++ rest ≡ calls_fields (cloid_field c) rest
unfolding pack_cloid cloid_field text_key calls
cloid_calls none rest = refl
cloid_calls (some c) rest = refl

cloid_count :
    (c : Option Cloid)
    → (if is_some c then 7 else 6)
      ≡ suc (suc (suc (suc (suc (suc (count_fields (cloid_field c)))))))
unfolding is_some count_fields cloid_field text_key
cloid_count none = refl
cloid_count (some c) = refl

pub order_calls :
    (o : OrderWire) (rest : List Call) → pack_order o ++ rest ≡ calls (order_tree o) rest
unfolding pack_order order_tree calls text_key count_fields pack_decimal
order_calls o rest =
    rw
      (
        append_assoc (pack_type o o.trigger) (pack_cloid o.cloid) rest,
        type_calls o o.trigger (pack_cloid o.cloid ++ rest),
        cloid_calls o.cloid rest,
        cloid_count o.cloid,
      )
      refl

type_json :
    (o : OrderWire) (t : Option TriggerSpec) (rest : List ℕ)
    → json_type o t ++ rest ≡ b',' ∷ quoted (codes "t") (b':' ∷ json_text (type_tree o t) rest)
unfolding json_type type_tree text_key json_text quoted
type_json o none rest = simp (append_assoc)
type_json o (some t) rest = simp (append_assoc)

cloid_json :
    (c : Option Cloid) (rest : List ℕ)
    → json_cloid c ++ rest ≡ json_more_fields (cloid_field c) rest
unfolding json_cloid cloid_field text_key json_text quoted
cloid_json none rest = refl
cloid_json (some c) rest = simp (append_assoc)

pub order_json :
    (o : OrderWire) (rest : List ℕ) → json_order o ++ rest ≡ json_text (order_tree o) rest
unfolding json_order order_tree text_key json_text quoted
order_json o rest = simp (append_assoc) (
    rw
      (
        type_json o o.trigger (json_cloid o.cloid ++ (b'}' ∷ rest)),
        cloid_json o.cloid (b'}' ∷ rest),
      )
      refl)

module _ (requested : List Call) (json : List ℕ) (v : Value) where
  pub encoded-Encodes :
      requested ≡ calls v [] → json ≡ json_text v [] → Encodes (encoded requested json) v
  unfolding encoded Encodes
  encoded-Encodes p q = (ap (write_all []) p, q)

grouping_calls :
    (g : OrderGrouping) (rest : List Call) → pack_grouping g ++ rest ≡ calls (grouping_tree g) rest
unfolding pack_grouping grouping_tree text_key calls count_fields
grouping_calls (named g) rest = refl
grouping_calls (priority rate) rest = refl

grouping_json :
    (g : OrderGrouping) (rest : List ℕ) → json_grouping g ++ rest ≡ json_text (grouping_tree g) rest
unfolding json_grouping grouping_tree text_key json_text quoted
grouping_json (named g) rest = simp (append_assoc)
grouping_json (priority rate) rest = simp (append_assoc)

builder_calls : (b : Option BuilderFee) → pack_builder b ≡ calls_fields (builder_field b) []
unfolding pack_builder builder_field text_key calls count_fields
builder_calls none = refl
builder_calls (some b) = refl

builder_json :
    (b : Option BuilderFee) (rest : List ℕ)
    → json_builder b ++ rest ≡ json_more_fields (builder_field b) rest
unfolding json_builder builder_field append_address text_key json_text quoted
builder_json none rest = refl
builder_json (some b) rest = simp (append_assoc)

builder_count :
    (b : Option BuilderFee)
    → (if is_some b then 4 else 3) ≡ suc (suc (suc (count_fields (builder_field b))))
unfolding is_some count_fields builder_field text_key
builder_count none = refl
builder_count (some b) = refl

pub order_action-Encodes :
    (os : List OrderWire) (g : OrderGrouping) (b : Option BuilderFee)
    → Encodes (order_action os g b) (order_action_tree os g b)
unfolding order_action order_action_tree text_key calls count_fields json_text quoted
order_action-Encodes os g b =
    encoded-Encodes _ _ _
      (rw
        (
          builder_count b,
          list_calls pack_order order_tree order_calls os,
          count_list order_tree os,
          grouping_calls g (pack_builder b),
          builder_calls b,
        )
        refl)
      (rw
        (
          list_json json_order order_tree order_json os,
          grouping_json g (json_builder b ++ (b'}' ∷ [])),
          builder_json b (b'}' ∷ []),
        )
        refl)

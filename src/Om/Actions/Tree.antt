-- ===== src/Om/Actions/Tree.antt =====
-- The specification of an action: one tree, which the MessagePack writer and the JSON text both
-- spell out. Keys and texts need no escape.
use hyperliquid_cpp.Base.{◌≡◌, ℕ, suc, Bool, List, [], ◌∷◌, ◌++◌}
use hyperliquid_cpp.Base.Int.{ℤ, pos, negsuc}
use hyperliquid_cpp.Om.MsgPack.{
  Call, map_call, array_call, str_call, boolean_call, uint_call, sint_call, write_all,
}
use hyperliquid_cpp.Om.Actions.Wire.{EncodedAction, uint_text, bool_text}

mutual
  pub data Value : Type 0 where
    number : ℕ → Value
    signed : ℤ → Value
    flag : Bool → Value
    words : List ℕ → Value
    array : Items → Value
    object : Fields → Value

  pub data Items : Type 0 where
    no_item : Items
    item : Value → Items → Items

  pub data Fields : Type 0 where
    no_field : Fields
    field : List ℕ → Value → Fields → Fields

unfoldable pub count_items : Items → ℕ
count_items no_item = 0
count_items (item v vs) = suc (count_items vs)

unfoldable pub count_fields : Fields → ℕ
count_fields no_field = 0
count_fields (field k v fs) = suc (count_fields fs)

-- The writer's calls for a tree, in front of other calls.
unfoldable mutual
  pub calls : Value → List Call → List Call
  calls (number n) rest = uint_call n ∷ rest
  calls (signed n) rest = sint_call n ∷ rest
  calls (flag b) rest = boolean_call b ∷ rest
  calls (words s) rest = str_call s ∷ rest
  calls (array vs) rest = array_call (count_items vs) ∷ calls_items vs rest
  calls (object fs) rest = map_call (count_fields fs) ∷ calls_fields fs rest

  pub calls_items : Items → List Call → List Call
  calls_items no_item rest = rest
  calls_items (item v vs) rest = calls v (calls_items vs rest)

  pub calls_fields : Fields → List Call → List Call
  calls_fields no_field rest = rest
  calls_fields (field k v fs) rest = str_call k ∷ calls v (calls_fields fs rest)

unfoldable pub quoted : List ℕ → List ℕ → List ℕ
quoted s rest = b'"' ∷ (s ++ (b'"' ∷ rest))

unfoldable pub digits_of : ℤ → List ℕ → List ℕ
digits_of (pos n) rest = uint_text n ++ rest
digits_of (negsuc n) rest = b'-' ∷ (uint_text (suc n) ++ rest)

-- The JSON text of a tree, in front of another text.
unfoldable mutual
  pub json_text : Value → List ℕ → List ℕ
  json_text (number n) rest = uint_text n ++ rest
  json_text (signed n) rest = digits_of n rest
  json_text (flag b) rest = bool_text b ++ rest
  json_text (words s) rest = quoted s rest
  json_text (array vs) rest = b'[' ∷ json_items vs (b']' ∷ rest)
  json_text (object fs) rest = b'{' ∷ json_fields fs (b'}' ∷ rest)

  pub json_items : Items → List ℕ → List ℕ
  json_items no_item rest = rest
  json_items (item v vs) rest = json_text v (json_more_items vs rest)

  pub json_more_items : Items → List ℕ → List ℕ
  json_more_items no_item rest = rest
  json_more_items (item v vs) rest = b',' ∷ json_text v (json_more_items vs rest)

  pub json_fields : Fields → List ℕ → List ℕ
  json_fields no_field rest = rest
  json_fields (field k v fs) rest = quoted k (b':' ∷ json_text v (json_more_fields fs rest))

  pub json_more_fields : Fields → List ℕ → List ℕ
  json_more_fields no_field rest = rest
  json_more_fields (field k v fs) rest =
      b',' ∷ quoted k (b':' ∷ json_text v (json_more_fields fs rest))

-- Both encodings are those of the tree.
unfoldable pub Encodes : EncodedAction → Value → Type 0
Encodes a v = (a.msgpack ≡ write_all [] (calls v [])) × (a.json ≡ json_text v [])

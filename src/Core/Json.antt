-- ===== src/Core/Json.antt =====
-- src/json/Json.h: the values of a JSON document, with accessors that never fail. What simdjson finds
-- in a text is a parameter where it is used: an integer of int64_t, one of uint64_t above that, or a
-- double, which is given by its integer part.
use hyperliquid_cpp.Base.{
  ℕ, ◌-◌, ◌%◌, ◌^◌, Bool, false, Option, none, some, List, [], ◌∷◌, ltb, if◌then◌else◌,
}
use hyperliquid_cpp.Base.Int.{ℤ, pos, negsuc}
use hyperliquid_cpp.Base.Texts.{same_text}

mutual
  pub data Json : Type 0 where
    null : Json
    boolean : Bool → Json
    integer : ℤ → Json
    unsigned : ℕ → Json
    double : ℤ → Json
    string : List ℕ → Json
    array : Elements → Json
    object : Members → Json

  pub data Elements : Type 0 where
    no_element : Elements
    element : Json → Elements → Elements

  pub data Members : Type 0 where
    no_member : Members
    member : List ℕ → Json → Members → Members

-- The residue of an integer modulo 2 ^ w, and the signed integer of w bits with that residue.
unfoldable pub wrap_unsigned : ℕ → ℤ → ℕ
wrap_unsigned w (pos n) = n % 2 ^ w
wrap_unsigned w (negsuc n) = 2 ^ w - 1 - n % 2 ^ w

unfoldable pub wrap_signed : ℕ → ℤ → ℤ
wrap_signed w a =
    let r = wrap_unsigned w a in if ltb r (2 ^ (w - 1)) then pos r else negsuc (2 ^ w - 1 - r)

-- The first member of that name.
unfoldable pub at_key : List ℕ → Members → Option Json
at_key key no_member = none
at_key key (member name value rest) =
    let later = at_key key rest in if same_text name key then some value else later

-- The methods of `Value`; an absent value is none.
unfoldable pub field : Option Json → List ℕ → Option Json
field (some (object members)) key = at_key key members
field (some null) key = none
field (some (boolean b)) key = none
field (some (integer n)) key = none
field (some (unsigned n)) key = none
field (some (double n)) key = none
field (some (string s)) key = none
field (some (array items)) key = none
field none key = none

unfoldable pub as_string : Option Json → List ℕ
as_string (some (string s)) = s
as_string (some null) = []
as_string (some (boolean b)) = []
as_string (some (integer n)) = []
as_string (some (unsigned n)) = []
as_string (some (double n)) = []
as_string (some (array items)) = []
as_string (some (object members)) = []
as_string none = []

unfoldable pub as_int : Option Json → ℤ
as_int (some (integer n)) = n
as_int (some (unsigned n)) = wrap_signed 64 (pos n)
as_int (some (double n)) = n
as_int (some null) = pos 0
as_int (some (boolean b)) = pos 0
as_int (some (string s)) = pos 0
as_int (some (array items)) = pos 0
as_int (some (object members)) = pos 0
as_int none = pos 0

unfoldable pub as_bool : Option Json → Bool
as_bool (some (boolean b)) = b
as_bool (some null) = false
as_bool (some (integer n)) = false
as_bool (some (unsigned n)) = false
as_bool (some (double n)) = false
as_bool (some (string s)) = false
as_bool (some (array items)) = false
as_bool (some (object members)) = false
as_bool none = false

unfoldable pub elements : Elements → List Json
elements no_element = []
elements (element value rest) = value ∷ elements rest

-- `isArray` and `array` in one.
unfoldable pub as_array : Option Json → Option (List Json)
as_array (some (array items)) = some (elements items)
as_array (some null) = none
as_array (some (boolean b)) = none
as_array (some (integer n)) = none
as_array (some (unsigned n)) = none
as_array (some (double n)) = none
as_array (some (string s)) = none
as_array (some (object members)) = none
as_array none = none

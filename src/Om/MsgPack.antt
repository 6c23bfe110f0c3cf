-- ===== src/Om/MsgPack.antt =====
-- include/hl/om/MsgPack.h: the MessagePack encoder whose bytes are hashed and signed.
-- A method appends to the writer's buffer; here it gives the bytes that it appends, and `write` is
-- the buffer after a method. The buffer is a list of bytes.
pub mod Format
pub mod RoundTrip
mod Runs
use Prim.Native.Nat.{bit_or}
use hyperliquid_cpp.Base.{
  ℕ, suc, ◌+◌, ◌-◌, ◌%◌, ◌^◌, Bool, true, false, List, [], ◌∷◌, ◌++◌, ltb, leb, if◌then◌else◌,
  length,
}
use hyperliquid_cpp.Base.Int.{ℤ, pos, negsuc}
use hyperliquid_cpp.Base.Bytes.{be}

-- `put(static_cast<std::uint8_t>(v))`.
abbrev put : ℕ → List ℕ
put v = (v % 256) ∷ []

collection_header : ℕ → ℕ → ℕ → ℕ → List ℕ
collection_header n fix p16 p32 =
    if ltb n 16
    then put (bit_or fix n)
    else if leb n 0xffff
    then put p16 ++ be 2 (n % 2 ^ 16)
    else put p32 ++ be 4 (n % 2 ^ 32)

pub map_header : ℕ → List ℕ
unfolding collection_header
map_header n = collection_header n 0x80 0xde 0xdf

pub array_header : ℕ → List ℕ
unfolding collection_header
array_header n = collection_header n 0x90 0xdc 0xdd

str_header : ℕ → List ℕ
str_header len =
    if ltb len 32
    then put (bit_or 0xa0 len)
    else if leb len 0xff
    then put 0xd9 ++ put len
    else if leb len 0xffff
    then put 0xda ++ be 2 (len % 2 ^ 16)
    else put 0xdb ++ be 4 (len % 2 ^ 32)

pub str : List ℕ → List ℕ
unfolding str_header
str s = str_header (length s) ++ s

pub boolean : Bool → List ℕ
boolean b = put (if b then 0xc3 else 0xc2)

pub nil : List ℕ
nil = put 0xc0

pub uint : ℕ → List ℕ
uint v =
    if ltb v 0x80
    then put v
    else if leb v 0xff
    then put 0xcc ++ put v
    else if leb v 0xffff
    then put 0xcd ++ be 2 (v % 2 ^ 16)
    else if leb v 0xffff_ffff
    then put 0xce ++ be 4 (v % 2 ^ 32)
    else put 0xcf ++ be 8 v

-- The bit pattern of a negative int64_t -(n + 1).
abbrev pub pattern64 : ℕ → ℕ
pattern64 n = 2 ^ 64 - suc n

sint_negative : ℕ → List ℕ
sint_negative n =
    if leb (suc n) 32
    then put (pattern64 n)
    else if leb (suc n) 128
    then put 0xd0 ++ put (pattern64 n)
    else if leb (suc n) 32768
    then put 0xd1 ++ be 2 (pattern64 n % 2 ^ 16)
    else if leb (suc n) 2147483648
    then put 0xd2 ++ be 4 (pattern64 n % 2 ^ 32)
    else put 0xd3 ++ be 8 (pattern64 n)

pub sint : ℤ → List ℕ
unfolding sint_negative
sint (pos v) = uint v
sint (negsuc n) = sint_negative n

-- The methods of the writer, and the buffer after one and after several.
pub data Call : Type 0 where
  map_call array_call : ℕ → Call
  str_call : List ℕ → Call
  boolean_call : Bool → Call
  nil_call : Call
  uint_call : ℕ → Call
  sint_call : ℤ → Call

pub appended : Call → List ℕ
appended (map_call n) = map_header n
appended (array_call n) = array_header n
appended (str_call s) = str s
appended (boolean_call b) = boolean b
appended nil_call = nil
appended (uint_call v) = uint v
appended (sint_call v) = sint v

pub write : List ℕ → Call → List ℕ
write buf c = buf ++ appended c

pub write_all : List ℕ → List Call → List ℕ
write_all buf [] = buf
write_all buf (c ∷ cs) = write_all (write buf c) cs

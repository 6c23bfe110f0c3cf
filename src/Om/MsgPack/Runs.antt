-- ===== src/Om/MsgPack/Runs.antt =====
-- Runs of the encoder, and its theorems at concrete inputs.
use hyperliquid_cpp.Base.{◌≡◌, refl, List, ◌∷◌, ◌++◌, [], some, arith, codes, map}
use hyperliquid_cpp.Base.Int.{negsuc}
use hyperliquid_cpp.Base.Bytes.{be}
use hyperliquid_cpp.Om.MsgPack.{Call, write_all, write, appended, uint, sint, str, map_header}
use hyperliquid_cpp.Om.MsgPack.RoundTrip.{meaning, decode_items, decode_items-write_all}

-- {"a": 300} and -33, as the Python library writes them.
abbrev calls : List Call
calls =
    Call.map_call 1
    ∷ Call.str_call (codes "a")
    ∷ Call.uint_call 300
    ∷ Call.sint_call (negsuc 32)
    ∷ []

calls_bytes : write_all [] calls ≡ 0x81 ∷ 0xa1 ∷ 0x61 ∷ 0xcd ∷ 0x01 ∷ 0x2c ∷ 0xd0 ∷ 0xdf ∷ []
unfolding write_all write appended uint sint str map_header be
calls_bytes = refl

decode_items-write_all_example :
    decode_items 4 (write_all [] calls ++ (7 ∷ [])) ≡ some (map meaning calls, 7 ∷ [])
decode_items-write_all_example = decode_items-write_all calls (7 ∷ []) (omega arith)

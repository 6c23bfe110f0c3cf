-- ===== src/Net/WsEncode.antt =====
-- include/hl/net/WsCodec.h and src/net/WsCodec.cpp: the client's frames, `encodeWsFrame`.
-- Bytes are numbers below 256. The loop on 64-bit words xors eight bytes with eight bytes, which is
-- the same in either byte order.
pub mod Masking
use Prim.Native.Nat.{bit_or, bit_and, bit_xor}
use hyperliquid_cpp.Base.{
  ℕ, zero, suc, ◌+◌, ◌-◌, ◌*◌, ◌/◌, ◌%◌, ◌^◌, Bool, true, false, ◌&&◌, ◌||◌, not, Option, none,
  some, List, [], ◌∷◌, ◌++◌, ltb, leb, ◌==◌, if◌then◌else◌, length, take, drop, get_or,
}
use hyperliquid_cpp.Base.Bytes.{be}
use hyperliquid_cpp.Core.Decimal.{u64}

-- The opcodes, as numbers: the decoder casts any four bits to the enum.
abbrev pub WsOpcode : Type 0
WsOpcode = ℕ

abbrev pub continuation : WsOpcode
continuation = 0x0

abbrev pub text : WsOpcode
text = 0x1

abbrev pub binary : WsOpcode
binary = 0x2

-- The second byte and the extended length of a masked frame.
unfoldable pub length_field : ℕ → List ℕ
length_field len =
    if ltb len 126
    then bit_or 0x80 len % 256 ∷ []
    else if leb len 0xffff
    then bit_or 0x80 126 ∷ be 2 len
    else bit_or 0x80 127 ∷ be 8 len

-- The bytes that `out` is extended by before the payload.
unfoldable pub header_size : ℕ → ℕ
header_size len =
    if leb 126 len && leb len 0xffff then 2 + 4 + 2 else if ltb 0xffff len then 2 + 4 + 8 else 2 + 4

unfoldable pub xor_bytes : List ℕ → List ℕ → List ℕ
xor_bytes [] ms = []
xor_bytes (b ∷ bs) [] = []
xor_bytes (b ∷ bs) (m ∷ ms) = bit_xor b m ∷ xor_bytes bs ms

-- The loop on 64-bit words: eight bytes at a time, by the rounds left.
unfoldable pub mask_words : List ℕ → ℕ → List ℕ → List ℕ
mask_words mask64 zero src = []
mask_words mask64 (suc n) src = xor_bytes (take 8 src) mask64 ++ mask_words mask64 n (drop 8 src)

-- The loop on bytes, from index `i` on.
unfoldable pub mask_from : List ℕ → ℕ → List ℕ → List ℕ
mask_from key i [] = []
mask_from key i (b ∷ bs) = bit_xor b (get_or key (i % 4) 0) ∷ mask_from key (i + 1) bs

unfoldable pub mask_payload : List ℕ → List ℕ → List ℕ
mask_payload mask src =
    let rounds = length src / 8 in
    mask_words (mask ++ mask) rounds src ++ mask_from mask (rounds * 8) (drop (rounds * 8) src)

unfoldable pub encode_ws_frame : WsOpcode → List ℕ → ℕ → List ℕ → List ℕ
encode_ws_frame opcode payload mask_key out =
    let mask = be 4 mask_key in
    out
    ++ (bit_or 0x80 opcode % 256
        ∷ (length_field (length payload) ++ (mask ++ mask_payload mask payload)))

-- ===== src/Net/Base64.antt =====
-- src/net/WsCodec.cpp: `base64Encode` and `wsAcceptKey`. The parts that the source joins by `|` share no
-- bits, so their sum is meant. OpenSSL's SHA1 is a parameter.
mod Decoding
mod Runs
use hyperliquid_cpp.Base.{ℕ, ◌+◌, ◌*◌, ◌/◌, ◌%◌, List, [], ◌∷◌, ◌++◌, get_or, codes}

-- `kTable`.
unfoldable pub table : ℕ → ℕ
table n = get_or (codes "ABCDEFGHIJKLMNOPQRSTUVWXYZabcdefghijklmnopqrstuvwxyz0123456789+/") n 0

-- The four characters of 24 bits.
unfoldable pub sextets : ℕ → List ℕ
sextets v =
    table (v / 262144 % 64) ∷ table (v / 4096 % 64) ∷ table (v / 64 % 64) ∷ table (v % 64) ∷ []

unfoldable pub base64_encode : List ℕ → List ℕ
base64_encode [] = []
base64_encode (a ∷ []) =
    table (a * 65536 / 262144 % 64) ∷ table (a * 65536 / 4096 % 64) ∷ b'=' ∷ b'=' ∷ []
base64_encode (a ∷ b ∷ []) =
    let v = a * 65536 + b * 256 in
    table (v / 262144 % 64) ∷ table (v / 4096 % 64) ∷ table (v / 64 % 64) ∷ b'=' ∷ []
base64_encode (a ∷ b ∷ c ∷ rest) = sextets (a * 65536 + b * 256 + c) ++ base64_encode rest

unfoldable pub ws_accept_key : (List ℕ → List ℕ) → List ℕ → List ℕ
ws_accept_key sha1 key = base64_encode (sha1 (key ++ codes "258EAFA5-E914-47DA-95CA-C5AB0DC85B11"))

-- ===== src/Net/Base64/Runs.antt =====
-- Two texts in base 64.
use hyperliquid_cpp.Base.{◌≡◌, refl, arith, codes}
use hyperliquid_cpp.Net.Base64.{table, sextets, base64_encode}
use hyperliquid_cpp.Net.Base64.Decoding.{base64_decode, base64_decode-base64_encode}

encoded_text : base64_encode (codes "Hello") ≡ codes "SGVsbG8="
unfolding base64_encode sextets table
encoded_text = refl

base64_decode-base64_encode_example : base64_decode (base64_encode (codes "Hello")) ≡ codes "Hello"
base64_decode-base64_encode_example =
    base64_decode-base64_encode (codes "Hello")
      (omega arith, (omega arith, (omega arith, (omega arith, (omega arith, tt)))))

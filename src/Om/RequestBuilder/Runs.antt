-- ===== src/Om/RequestBuilder/Runs.antt =====
-- A frame with a signer that returns the message.
use hyperliquid_cpp.Base.{ℕ, ◌≡◌, Bool, true, Option, none, some, List, take, replicate}
use hyperliquid_cpp.Om.Actions.Others.{noop}
use hyperliquid_cpp.Om.RequestBuilder.{Signature, RequestBuilder, payload, ws_post_action, ws_post}
use hyperliquid_cpp.Om.RequestBuilder.Frames.{ws_post_action-ws_post}

abbrev echo : List ℕ → Option (List ℕ) → ℕ → Option ℕ → Bool → Signature
echo msgpack vault nonce expires is_mainnet = record {
  r = take 32 msgpack;
  s = replicate 32 nonce;
  v = 27;
}

abbrev mainnet : RequestBuilder echo
mainnet = record { is_mainnet = true; vault = none }

ws_post_action-ws_post_example :
    ws_post_action echo mainnet 7 noop 1700 (some 1800)
    ≡ ws_post 7 (payload echo mainnet noop 1700 (some 1800))
ws_post_action-ws_post_example = ws_post_action-ws_post echo mainnet 7 noop 1700 (some 1800)

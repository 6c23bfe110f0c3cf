-- ===== src/Lib.antt =====
-- A model of hyperliquid-cpp, a client library for the Hyperliquid exchange: fixed-point decimals,
-- the order book, the wire codecs, the WebSocket session, the asset registry, the order
-- management, and the encoding of signed actions.
--
-- Base: shared tests, lists, signed integers (Base/Int.antt), bytes (Base/Bytes.antt), texts
--   (Base/Texts.antt) and maps (Base/Assoc.antt).
-- Core/Decimal.antt: src/core/Decimal.cpp. `parse`, `to_chars`, `mul`, `div` and
--   `round_to_quantum` are the functions of those names. A mantissa is the integer that the int64_t
--   holds; the parser's unsigned accumulator keeps its wrap-around. `to_chars` runs on fuel: 24
--   rounds for the integer digits, where 20 digits are the most that 64 bits need, and 8 rounds
--   for the zeros trimmed from a fraction below 10 ^ 8.
-- Core/Hex.antt: include/hl/core/Hex.h and src/core/Hex.cpp, with the client order ids, addresses
--   and coin names of include/hl/core/Types.h. Texts are lists of character codes.
-- Md/OrderBook.antt: src/md/OrderBook.cpp. A side is the array of 64 levels with its count;
--   `overlay_top`, `drop_crossing`, `apply_bbo` and `apply_snapshot` move array entries as the
--   source does, and Md/OrderBook/Spec.antt says the same on lists of visible levels.
-- Om/MsgPack.antt: include/hl/om/MsgPack.h, the encoder of what is signed. Om/MsgPack/Format.antt is
--   the MessagePack format as a decoder.
-- Om/Nonce.antt: `NonceGenerator` of src/om/Actions.cpp, with threads that race in `next` as a step
--   relation; the system clock is an input of each call.
-- Om/AssetRegistry.antt: the rounding rules of `AssetInfo` in src/om/AssetRegistry.cpp; its child
--   modules Loading and SpotLoading are the list of assets with `add`, `find` and the two loaders.
-- Core/Json.antt: src/json/Json.h, the values of a document that simdjson has parsed.
-- Net/WsEncode.antt and Net/WsDecode.antt: src/net/WsCodec.cpp. `encode_ws_frame` is encodeWsFrame,
--   `feed` and `reset` are the decoder's methods. The decoder's loop runs on fuel, one round for
--   each frame and one that stops. What a callback does with the decoder is a list of reactions.
-- Net/Http.antt: src/net/HttpCodec.cpp. `feed_loop` is `feed`, one round for each pass of its loop: every
--   round but those of a complete response takes a byte, so a round for each byte is enough.
--   Net/Http/Bytes.antt says the same one byte at a time.
-- Net/Base64.antt: `base64Encode` and `wsAcceptKey` of src/net/WsCodec.cpp. Net/Url.antt: src/net/Url.cpp.
-- Net/WsSession.antt and Net/WsSession/Steps.antt: src/net/WsSession.cpp on the states of
--   src/net/WebSocketClient.cpp and the timers of src/net/EventLoop.cpp. A `Network` says which frames
--   and attempts fail; `Reachable` are the states after any calls, callbacks and timers.
-- Om/Orders.antt: the orders of `ExchangeClient` in src/om/ExchangeClient.cpp: Table has the order
--   table and its index, Lifecycle `applyAck` and `applyVenueStatus`, Streams the messages of the private
--   streams, Reconcile the questions to the venue with adoption and eviction, Results `send` and
--   `applyActionResult`, Entry, Cancels and Calls the requests of the user, Readiness the start, the
--   session's callbacks and what the client waits for, and Steps the events that a client meets. A
--   `Tracked&` is a `Held`, which goes back under its key; what the client tells, asks and sends is a
--   list of outputs. What a listener does in a callback is a further event, and the wall clock stands
--   still within one. The loops that cut cancels into batches run on fuel, one round for each entry.
-- Om/Actions.antt: include/hl/om/Actions.h and src/om/Actions.cpp, the builders of `hl::actions`;
--   Om/Actions/Tree.antt is what both encodings spell. Om/RequestBuilder.antt: `RequestBuilder`.
-- Core/Errors.antt: `Error` of include/hl/core/Types.h and include/hl/core/Result.h.
--
-- The order book and the price rules stand on Decimal; the actions that are signed stand on MsgPack,
-- Hex and Decimal; the signed request stands on the actions, with the signer as a parameter. The
-- order management stands on the registry and the actions; the answers of src/om/InfoClient.cpp are its
-- inputs. The session stands on the WebSocket client and on the event loop's timers.
-- Not modelled: doubles (fromDouble, spreadBps), I/O (sockets, TLS, epoll), and the libraries for
-- JSON, TLS and elliptic curves; of `ExchangeClient` the wallet's role, the requests for information
-- over the socket, the request budget, and the frames, deadline timers and latency figures of an
-- action. int64_t overflow that the source leaves undefined does not wrap here: sums and differences
-- of mantissas are those of the integers.
pub mod Base
pub mod Core
pub mod Md
pub mod Net
pub mod Om

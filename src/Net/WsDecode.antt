-- ===== src/Net/WsDecode.antt =====
-- include/hl/net/WsCodec.h and src/net/WsCodec.cpp: `WsFrameDecoder`, the server's frames.
-- The decoder is explicit state, the object's fields. A callback may feed more bytes or reset the
-- decoder; what it does is the list of its reactions. Sizes are not wrapped: a limit on messages
-- that is at most 2^64 - 15 keeps them all below 2^64.
pub mod RoundTrip
pub mod Messages
pub mod Totality
mod Runs
use Prim.Native.Nat.{bit_or, bit_and, bit_xor}
use hyperliquid_cpp.Base.{
  ℕ, zero, suc, ◌+◌, ◌-◌, ◌*◌, ◌/◌, ◌%◌, ◌^◌, Bool, true, false, ◌&&◌, ◌||◌, not, Option, none,
  some, List, [], ◌∷◌, ◌++◌, ltb, leb, ◌==◌, if◌then◌else◌, length, take, drop, get_or,
}
use hyperliquid_cpp.Base.Bytes.{be}
use hyperliquid_cpp.Core.Decimal.{u64}
use hyperliquid_cpp.Net.WsEncode.{WsOpcode, continuation, text, binary, mask_from}

pub record WsFrameDecoder : Type 0 where
  pub buffer : List ℕ
  pub consumed : ℕ
  pub fragments : List ℕ
  pub fragment_opcode : WsOpcode
  pub in_fragmented_message : Bool
  pub decoding : Bool
  pub staging : List ℕ
  pub epoch : ℕ
  pub max_message : ℕ

pub data Status : Type 0 where
  ok protocol_error message_too_big : Status

-- What the sink receives: `onWsMessage` and `onWsControl`.
pub data Event : Type 0 where
  message control : WsOpcode → List ℕ → Event

-- What a callback does with the decoder.
pub data Reaction : Type 0 where
  feeds : List ℕ → Reaction
  resets : Reaction

pub reset : WsFrameDecoder → WsFrameDecoder
reset d = record d {
  epoch = (d.epoch + 1) % u64;
  staging = [];
  buffer = [];
  consumed = 0;
  fragments = [];
  in_fragmented_message = false;
}

-- `feed` from inside a callback.
pub stage : WsFrameDecoder → List ℕ → WsFrameDecoder
stage d bytes = record d { staging = d.staging ++ bytes }

pub react : WsFrameDecoder → List Reaction → WsFrameDecoder
react d [] = d
react d (feeds bytes ∷ rs) = react (stage d bytes) rs
react d (resets ∷ rs) = react (reset d) rs

pub record FrameHeader : Type 0 where
  pub fin : Bool
  pub opcode : WsOpcode
  pub masked : Bool
  pub payload_len : ℕ
  pub header : ℕ

pub shift_in : ℕ → ℕ → List ℕ → ℕ
shift_in zero acc bs = acc
shift_in (suc k) acc [] = acc
shift_in (suc k) acc (b ∷ bs) = shift_in k (acc * 256 + b) bs

-- The length's bytes behind the first two; none when not all of them are there.
pub read_length : ℕ → List ℕ → Option (ℕ × ℕ)
read_length len7 rest =
    if len7 == 126
    then (if ltb (2 + length rest) 4 then none else some (shift_in 2 0 rest, 4))
    else if len7 == 127
    then (if ltb (2 + length rest) 10 then none else some (shift_in 8 0 rest, 10))
    else some (len7, 2)

pub header_of : ℕ → ℕ → Option (ℕ × ℕ) → Option FrameHeader
header_of b0 b1 none = none
header_of b0 b1 (some (len, size)) =
    let masked = not (bit_and b1 0x80 == 0) in
    some (record {
      fin = not (bit_and b0 0x80 == 0);
      opcode = bit_and b0 0x0f;
      masked = masked;
      payload_len = len;
      header = if masked then size + 4 else size;
    })

pub read_header : List ℕ → Option FrameHeader
read_header [] = none
read_header (b0 ∷ []) = none
read_header (b0 ∷ b1 ∷ rest) = header_of b0 b1 (read_length (bit_and b1 0x7f) rest)

pub available : WsFrameDecoder → List ℕ
available d = drop d.consumed d.buffer

-- The payload of a frame that is all there, unmasked.
pub body_of : FrameHeader → List ℕ → List ℕ
body_of h bytes =
    let payload = take h.payload_len (drop h.header bytes) in
    if h.masked then mask_from (take 4 (drop (h.header - 4) bytes)) 0 payload else payload

-- The payload is unmasked inside the buffer, and the frame counts as consumed.
pub consume : WsFrameDecoder → FrameHeader → WsFrameDecoder
consume d h = record d {
  buffer =
      take (d.consumed + h.header) d.buffer
      ++ (body_of h (available d) ++ drop (d.consumed + h.header + h.payload_len) d.buffer);
  consumed = d.consumed + (h.header + h.payload_len);
}

pub absorb_staging : WsFrameDecoder → WsFrameDecoder
absorb_staging d = record d { buffer = d.buffer ++ d.staging; staging = [] }

-- The end of a call of `feed`.
pub finish : WsFrameDecoder → WsFrameDecoder
finish d =
    let idle = record d { decoding = false; staging = [] } in
    if d.consumed == length d.buffer
    then record idle { buffer = []; consumed = 0 }
    else if ltb (64 * 1024) d.consumed && ltb (length d.buffer) (d.consumed * 2)
    then record idle { buffer = drop d.consumed d.buffer; consumed = 0 }
    else idle

-- The sink: its state after a callback, and what the callback does with the decoder.
module _ {S : Type 0} (sink : S → Event → S × List Reaction) where
  -- How one round of the loop ends: `abandoned` is the return after a reset.
  pub data Round : Type 0 where
    more : WsFrameDecoder → S → Round
    stop : Status → WsFrameDecoder → S → Round
    abandoned : WsFrameDecoder → S → Round

  pub callback : ℕ → WsFrameDecoder → S → Event → Round
  callback epoch d s event =
      let r = sink s event in
      let d' = react d r.1 in
      if epoch == d'.epoch then more d' r.0 else abandoned (record d' { decoding = false }) r.0

  pub deliver : ℕ → WsFrameDecoder → S → FrameHeader → List ℕ → Round
  unfolding callback
  deliver epoch d s h body =
      if leb 0x8 h.opcode
      then (if not h.fin || ltb 125 h.payload_len
          then stop protocol_error d s
          else callback epoch d s (control h.opcode body))
      else if h.opcode == continuation
      then (if not d.in_fragmented_message
          then stop protocol_error d s
          else if ltb d.max_message (length d.fragments + length body)
          then stop message_too_big d s
          else if h.fin
          then callback epoch (record d { in_fragmented_message = false; fragments = [] }) s
              (message d.fragment_opcode (d.fragments ++ body))
          else more (record d { fragments = d.fragments ++ body }) s)
      else if (h.opcode == text) || (h.opcode == binary)
      then (if d.in_fragmented_message
          then stop protocol_error d s
          else if h.fin
          then callback epoch d s (message h.opcode body)
          else more
              (record d {
                in_fragmented_message = true;
                fragment_opcode = h.opcode;
                fragments = body;
              })
              s)
      else stop protocol_error d s

  pub on_header : ℕ → WsFrameDecoder → S → Option FrameHeader → Round
  on_header epoch d s none = stop ok d s
  on_header epoch d s (some h) =
      if ltb d.max_message h.payload_len
      then stop message_too_big d s
      else if ltb (length (available d)) (h.header + h.payload_len)
      then stop ok d s
      else deliver epoch (consume d h) s h (body_of h (available d))

  pub decode_round : ℕ → WsFrameDecoder → S → Round
  decode_round epoch d s =
      let d' = absorb_staging d in on_header epoch d' s (read_header (available d'))

  pub after_round :
      (WsFrameDecoder → S → Option (WsFrameDecoder × S × Status))
      → Round
      → Option (WsFrameDecoder × S × Status)
  after_round next (more d s) = next d s
  after_round next (stop status d s) = some (finish d, s, status)
  after_round next (abandoned d s) = some (d, s, ok)

  -- The loop of `feed`; none when the fuel runs out.
  pub decode_loop : ℕ → ℕ → WsFrameDecoder → S → Option (WsFrameDecoder × S × Status)
  decode_loop zero epoch d s = none
  decode_loop (suc fuel) epoch d s = after_round (decode_loop fuel epoch) (decode_round epoch d s)

  pub feed : ℕ → WsFrameDecoder → List ℕ → S → Option (WsFrameDecoder × S × Status)
  feed fuel d bytes s =
      if d.decoding
      then some (stage d bytes, s, ok)
      else decode_loop fuel d.epoch (record d { decoding = true; buffer = d.buffer ++ bytes }) s

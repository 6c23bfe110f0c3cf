-- ===== src/Net/WsDecode/Messages.antt =====
-- The decoder's loop on the frames of the encoder: the sink receives the messages, in order.
use hyperliquid_cpp.Base.{
  ℕ, suc, ◌+◌, ◌^◌, ◌≤◌, ◌<◌, ◌≡◌, refl, ap, ◌∙◌, sym, true, false, some, List, [], ◌∷◌, ◌++◌,
  length, take, drop, All, arith, length-append, length-take, length-drop, ltb, leb, ◌==◌,
  drop-drop, drop_replaced, drop-append_at, append-nil, ◌||◌,
}
use hyperliquid_cpp.Base.Bytes.{IsByte}
use hyperliquid_cpp.Net.WsEncode.{text, binary, WsOpcode, header_size, encode_ws_frame}
use hyperliquid_cpp.Net.WsDecode.{
  decode_loop, decode_round, feed, ok, after_round, FrameHeader, read_header, body_of,
  WsFrameDecoder, available, consume, finish, absorb_staging, Event, message, Reaction, on_header,
  deliver, callback, react, more,
}
use hyperliquid_cpp.Net.WsDecode.RoundTrip.{
  client_header, read_header-frame, body_of-frame, length-frame, header_size_pos,
}

-- What is left behind a frame that is all there.
pub available-consume :
    (d : WsFrameDecoder) (h : FrameHeader)
    → 0 < h.header
    → h.header + h.payload_len ≤ length (available d)
    → length (body_of h (available d)) ≡ h.payload_len
    → available (consume d h) ≡ drop (h.header + h.payload_len) (available d)
unfolding available consume
available-consume d h pos fits len =
    let room : d.consumed + h.header ≤ length d.buffer =
      omega (arith, pos, fits, length-drop d.consumed d.buffer) in
    let e : d.consumed + (h.header + h.payload_len) ≡ d.consumed + h.header + h.payload_len =
      omega arith in
    rw
      (
        e,
        drop_replaced (d.consumed + h.header) h.payload_len d.buffer (body_of h (available d)) room
            len,
        drop-drop (h.header + h.payload_len) d.consumed d.buffer,
        e,
      )
      refl

pub length-consume :
    (d : WsFrameDecoder) (h : FrameHeader)
    → 0 < h.header
    → h.header + h.payload_len ≤ length (available d)
    → length (body_of h (available d)) ≡ h.payload_len
    → length (consume d h).buffer ≡ length d.buffer
unfolding available consume
length-consume d h pos fits len =
    length-append (take (d.consumed + h.header) d.buffer) _
    ∙ omega (
      arith,
      pos,
      fits,
      len,
      length-drop d.consumed d.buffer,
      length-append (body_of h (available d))
          (drop (d.consumed + h.header + h.payload_len) d.buffer),
      length-take (d.consumed + h.header) d.buffer,
      length-drop (d.consumed + h.header + h.payload_len) d.buffer,
    )

pub record Frame : Type 0 where
  pub opcode : WsOpcode
  pub payload : List ℕ
  pub mask_key : ℕ

-- A text or binary frame that a decoder with this limit takes.
unfoldable pub IsMessage : ℕ → Frame → Type 0
IsMessage limit f =
    (0 < f.opcode × f.opcode < 3)
    × (All IsByte f.payload × (length f.payload ≤ limit × length f.payload < 2 ^ 64))

pub encode_all : List Frame → List ℕ
encode_all [] = []
encode_all (f ∷ fs) = encode_ws_frame f.opcode f.payload f.mask_key [] ++ encode_all fs

pub absorb_staging-empty : (d : WsFrameDecoder) → d.staging ≡ [] → absorb_staging d ≡ d
unfolding absorb_staging
absorb_staging-empty d e = rw (e, append-nil d.buffer) refl

-- Between two calls of `feed`, with nothing pending.
unfoldable pub IsIdle : WsFrameDecoder → Type 0
IsIdle d =
    (d.decoding ≡ false × d.staging ≡ [])
    × (d.in_fragmented_message ≡ false × d.consumed ≡ length d.buffer)

finish-IsIdle :
    (d : WsFrameDecoder)
    → d.in_fragmented_message ≡ false
    → d.consumed ≤ length d.buffer
    → available d ≡ []
    → IsIdle (finish d)
unfolding finish IsIdle available
finish-IsIdle d whole le e =
    let all : (d.consumed == length d.buffer) ≡ true =
      ground (arith, le, length-drop d.consumed d.buffer, ap length e) in
    rw all ((refl, refl), (whole, refl))

module _ {S : Type 0} (sink : S → Event → S × List Reaction) where
  -- The sink after the messages of the frames.
  pub deliver_all : S → List Frame → S
  deliver_all s [] = s
  deliver_all s (f ∷ fs) = deliver_all (sink s (message f.opcode f.payload)).0 fs

-- The sink's callbacks only take notes.
module _ {S : Type 0} (sink : S → Event → S × List Reaction)
    (quiet : (s : S) (e : Event) → (sink s e).1 ≡ []) where
  round-frame :
      (d : WsFrameDecoder) (s : S) (f : Frame) (rest : List ℕ)
      → IsMessage d.max_message f
      → d.in_fragmented_message ≡ false
      → available d ≡ encode_ws_frame f.opcode f.payload f.mask_key [] ++ rest
      → on_header sink d.epoch d s (read_header (available d))
        ≡ more
            (consume d (client_header f.opcode (length f.payload)))
            (sink s (message f.opcode f.payload)).0
  unfolding on_header deliver callback react IsMessage consume
  round-frame d s f rest fine idle e =
      let hd =
        ap read_header e
        ∙ read_header-frame f.opcode f.payload f.mask_key rest (omega (arith, fine.0.1))
            fine.1.1.1 in
      let b =
        ap (body_of (client_header f.opcode (length f.payload))) e
        ∙ body_of-frame f.opcode f.payload f.mask_key rest fine.1.0 in
      let size = ap length e ∙ length-frame f.opcode f.payload f.mask_key rest in
      let small : ltb d.max_message (length f.payload) ≡ false = ground (arith, fine.1.1.0) in
      let there : ltb (length (available d)) (header_size (length f.payload) + length f.payload)
          ≡ false =
        ground (arith, size) in
      let data_frame : leb 0x8 f.opcode ≡ false = ground (arith, fine.0.1) in
      let first : (f.opcode == 0) ≡ false = ground (arith, fine.0.0) in
      let text_or_binary : ((f.opcode == text) || (f.opcode == binary)) ≡ true =
        ground (arith, fine.0.0, fine.0.1) in
      let same : (d.epoch == d.epoch) ≡ true = ground arith in
      rw
        (
          hd,
          small,
          there,
          data_frame,
          first,
          text_or_binary,
          b,
          quiet s (message f.opcode f.payload),
          same,
          idle,
        )
        refl

  -- The frames `fs` wait in the buffer, and nothing else does.
  IsReady : WsFrameDecoder → List Frame → Type 0
  IsReady d fs =
      (d.staging ≡ [] × d.in_fragmented_message ≡ false)
      × (d.consumed ≤ length d.buffer × available d ≡ encode_all fs)

  next : WsFrameDecoder → Frame → WsFrameDecoder
  next d f = consume d (client_header f.opcode (length f.payload))

  next-IsReady :
      (d : WsFrameDecoder) (f : Frame) (fs : List Frame)
      → IsMessage d.max_message f
      → IsReady d (f ∷ fs)
      → IsReady (next d f) fs
  unfolding next consume IsReady IsMessage encode_all available
  next-IsReady d f fs fine ready =
      let h = client_header f.opcode (length f.payload) in
      let frame = encode_ws_frame f.opcode f.payload f.mask_key [] in
      let size = length-frame f.opcode f.payload f.mask_key (encode_all fs) in
      let alone : length frame ≡ h.header + h.payload_len =
        omega (arith, size, length-append frame (encode_all fs)) in
      let fits : h.header + h.payload_len ≤ length (available d) =
        omega (arith, size, ap length ready.1.1) in
      let body = ap length (
        ap (body_of h) ready.1.1
        ∙ body_of-frame f.opcode f.payload f.mask_key (encode_all fs) fine.1.0) in
      let pos = header_size_pos (length f.payload) in
      (
        (ready.0.0, ready.0.1),
        (
          omega
              (arith, length-consume d h pos fits body, fits, pos, length-drop d.consumed d.buffer),
          available-consume d h pos fits body
              ∙ ap (drop (h.header + h.payload_len)) ready.1.1
              ∙ drop-append_at (h.header + h.payload_len) frame (encode_all fs) alone,
        ),
      )

  final : WsFrameDecoder → List Frame → WsFrameDecoder
  final d [] = d
  final d (f ∷ fs) = final (next d f) fs

  final-IsReady :
      (fs : List Frame) (d : WsFrameDecoder)
      → All (IsMessage d.max_message) fs
      → IsReady d fs
      → IsReady (final d fs) []
  unfolding final next consume
  final-IsReady [] d fine ready = ready
  final-IsReady (f ∷ fs) d fine ready =
      final-IsReady fs (next d f) fine.1 (next-IsReady d f fs fine.0 ready)

  decode_loop-ready :
      (fs : List Frame) (d : WsFrameDecoder) (s : S)
      → All (IsMessage d.max_message) fs
      → IsReady d fs
      → decode_loop sink (suc (length fs)) d.epoch d s
        ≡ some (finish (final d fs), deliver_all sink s fs, ok)
  unfolding decode_loop decode_round after_round on_header IsReady final encode_all deliver_all
      read_header next consume
  decode_loop-ready [] d s fine ready = rw (absorb_staging-empty d ready.0.0, ready.1.1) refl
  decode_loop-ready (f ∷ fs) d s fine ready =
      rw
        (
          absorb_staging-empty d ready.0.0,
          round-frame d s f (encode_all fs) fine.0 ready.0.1 ready.1.1,
        )
        (decode_loop-ready fs (next d f) (sink s (message f.opcode f.payload)).0 fine.1
          (next-IsReady d f fs fine.0 ready))

  -- Data frames that the client's encoder wrote one behind the other, fed in one piece to a decoder
  -- with nothing pending, are delivered as messages: the sink gets the payload of each with its
  -- opcode, in order, the result is Ok, and the decoder has nothing pending again. The frames'
  -- payloads are bytes, no longer than the decoder's limit and 2^64 - 1, and the callbacks leave the
  -- decoder alone. Fuel for one round more than there are frames is enough.
  pub feed-encode_all :
      (d : WsFrameDecoder) (s : S) (fs : List Frame)
      → IsIdle d
      → All (IsMessage d.max_message) fs
      → (d' : WsFrameDecoder) × (feed sink (suc (length fs)) d (encode_all fs) s
            ≡ some (d', deliver_all sink s fs, ok)
          × IsIdle d')
  unfolding feed IsIdle IsReady available encode_all
  feed-encode_all d s fs idle fine =
      let d0 : WsFrameDecoder = record d { decoding = true; buffer = d.buffer ++ encode_all fs } in
      let ready : IsReady d0 fs = (
        (idle.0.1, idle.1.0),
        (
          omega (arith, idle.1.1, length-append d.buffer (encode_all fs)),
          drop-append_at d.consumed d.buffer (encode_all fs) (sym idle.1.1),
        ),
      ) in
      let last = final-IsReady fs d0 fine ready in
      (
        finish (final d0 fs),
        (
          rw (idle.0.0) (decode_loop-ready fs d0 s fine ready),
          finish-IsIdle (final d0 fs) last.0.1 last.1.0 last.1.1,
        ),
      )

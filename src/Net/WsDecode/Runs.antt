-- ===== src/Net/WsDecode/Runs.antt =====
-- The WebSocket codec on concrete frames.
use hyperliquid_cpp.Base.{ℕ, ◌≡◌, refl, false, some, List, [], ◌∷◌, ◌++◌, All, arith}
use hyperliquid_cpp.Net.WsEncode.{
  text, binary, mask_payload, mask_from, mask_words, encode_ws_frame, length_field,
}
use hyperliquid_cpp.Base.Bytes.{be}
use hyperliquid_cpp.Net.WsEncode.Masking.{mask_payload-mask_from}
use hyperliquid_cpp.Net.WsDecode.{WsFrameDecoder, Event, Reaction, ok, feed}
use hyperliquid_cpp.Net.WsDecode.Messages.{
  Frame, IsMessage, encode_all, IsIdle, deliver_all, feed-encode_all,
}

abbrev fresh : ℕ → WsFrameDecoder
fresh limit = record {
  buffer = [];
  consumed = 0;
  fragments = [];
  fragment_opcode = text;
  in_fragmented_message = false;
  decoding = false;
  staging = [];
  epoch = 0;
  max_message = limit;
}

-- A sink that keeps what it receives.
abbrev keep : List Event → Event → List Event × List Reaction
keep es e = (es ++ (e ∷ []), [])

abbrev hello : Frame
hello = record { opcode = text; payload = 72 ∷ 101 ∷ 108 ∷ 108 ∷ 111 ∷ []; mask_key = 0x37fa213d }

abbrev data_frame : Frame
data_frame = record {
  opcode = binary;
  payload = 1 ∷ 2 ∷ 3 ∷ 4 ∷ 5 ∷ 6 ∷ 7 ∷ 8 ∷ 9 ∷ 10 ∷ [];
  mask_key = 258;
}

fresh-IsIdle : IsIdle (fresh 1024)
unfolding IsIdle
fresh-IsIdle = ((refl, refl), (refl, refl))

frames-IsMessage : All (IsMessage 1024) (hello ∷ data_frame ∷ [])
unfolding IsMessage
frames-IsMessage = (
  ((omega arith, omega arith), (omega arith, (omega arith, omega arith))),
  (((omega arith, omega arith), (omega arith, (omega arith, omega arith))), tt),
)

-- The example of RFC 6455, section 5.7.
hello_encoded :
    encode_ws_frame hello.opcode hello.payload hello.mask_key []
    ≡ 0x81 ∷ 0x85 ∷ 0x37 ∷ 0xfa ∷ 0x21 ∷ 0x3d ∷ 0x7f ∷ 0x9f ∷ 0x4d ∷ 0x51 ∷ 0x58 ∷ []
unfolding encode_ws_frame length_field mask_payload mask_from mask_words be
hello_encoded = refl

mask_payload-mask_from_example :
    mask_payload (be 4 258) data_frame.payload ≡ mask_from (be 4 258) 0 data_frame.payload
mask_payload-mask_from_example = mask_payload-mask_from 258 data_frame.payload

feed-encode_all_example :
    (d' : WsFrameDecoder) × (feed keep 3 (fresh 1024) (encode_all (hello ∷ data_frame ∷ [])) []
        ≡ some (d', deliver_all keep [] (hello ∷ data_frame ∷ []), ok)
      × IsIdle d')
feed-encode_all_example =
    feed-encode_all keep (λ s e. refl) (fresh 1024) [] (hello ∷ data_frame ∷ []) fresh-IsIdle
      frames-IsMessage

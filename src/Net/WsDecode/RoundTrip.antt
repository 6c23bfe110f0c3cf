-- ===== src/Net/WsDecode/RoundTrip.antt =====
-- The decoder reads the frames of the encoder.
use Prim.Native.Nat.{bit_or, bit_and}
use hyperliquid_cpp.Base.{
  ℕ, zero, suc, ◌+◌, ◌-◌, ◌*◌, ◌%◌, ◌^◌, ◌<◌, ◌≡◌, refl, ap, ◌∙◌, sym, true, false, not, some, List,
  [], ◌∷◌, ◌++◌, length, take, drop, All, arith, length-append, append_assoc, ltb, leb, ◌==◌,
  Bool-cases, inl, inr, take-length-append, drop-length-append, drop-drop,
}
use hyperliquid_cpp.Base.Bytes.{
  be, IsByte, read_be, read_be-be, length-be, be-IsByte, flagged_low7, flagged_low4, flagged_high,
}
use native.Mathlib.Nat.{mod-eq_of_lt}
use mathlib.Core.Option.{some-injective}
use hyperliquid_cpp.Net.WsEncode.{
  WsOpcode, length_field, header_size, encode_ws_frame, mask_payload,
}
use hyperliquid_cpp.Net.WsEncode.Masking.{mask_payload-mask_from, mask_from_twice, length-mask_from}
use hyperliquid_cpp.Net.WsDecode.{
  FrameHeader, shift_in, read_length, read_header, header_of, body_of,
}

shift_in-read_be :
    (k acc : ℕ) (bs : List ℕ) (v : ℕ) (rest : List ℕ)
    → read_be k bs acc ≡ some (v, rest)
    → shift_in k acc bs ≡ v
unfolding shift_in read_be
shift_in-read_be zero acc bs v rest e = ap (λ (t : ℕ × List ℕ). t.0) (some-injective _ _ e)
shift_in-read_be (suc k) acc [] v rest e = absurd (ground arith)
shift_in-read_be (suc k) acc (b ∷ bs) v rest e = shift_in-read_be k (acc * 256 + b) bs v rest e

shift_in-be : (k v : ℕ) (rest : List ℕ) → v < 256 ^ k → shift_in k 0 (be k v ++ rest) ≡ v
shift_in-be k v rest h =
    shift_in-read_be k 0 (be k v ++ rest) _ rest (read_be-be k v 0 rest)
    ∙ omega (arith, mod-eq_of_lt h)

read_header-length_field :
    (b0 len : ℕ) (tail : List ℕ)
    → len < 2 ^ 64
    → read_header (b0 ∷ (length_field len ++ tail))
      ≡ some (record {
        fin = not (bit_and b0 0x80 == 0);
        opcode = bit_and b0 0x0f;
        masked = true;
        payload_len = len;
        header = header_size len;
      })
unfolding read_header read_length length_field header_size header_of
read_header-length_field b0 len tail h = elim (Bool-cases (ltb len 126)) [
  | inl short ↦
      let a : leb 126 len ≡ false = ground arith in
      let b : ltb 0xffff len ≡ false = ground arith in
      let c : (len == 126) ≡ false = ground arith in
      let d : (len == 127) ≡ false = ground arith in
      rw (short, a, b, flagged_low7 len (ground arith), c, d, flagged_high len (ground arith)) refl
  | inr long ↦ elim (Bool-cases (leb len 0xffff)) [
    | inl two ↦
        let a : leb 126 len ≡ true = ground arith in
        let g : ltb (2 + length (be 2 len ++ tail)) 4 ≡ false =
          ground (arith, length-append (be 2 len) tail, length-be 2 len) in
        rw (long, two, a, g, shift_in-be 2 len tail (ground arith)) refl
    | inr eight ↦
        let a : leb 126 len ≡ true = ground arith in
        let b : ltb 0xffff len ≡ true = ground arith in
        let g : ltb (2 + length (be 8 len ++ tail)) 10 ≡ false =
          ground (arith, length-append (be 8 len) tail, length-be 8 len) in
        rw (long, eight, a, b, g, shift_in-be 8 len tail (ground arith)) refl
  ]
]

take-key : (key : ℕ) (rest : List ℕ) → take 4 (be 4 key ++ rest) ≡ be 4 key
unfolding be
take-key key rest = refl

drop-key : (key : ℕ) (rest : List ℕ) → drop 4 (be 4 key ++ rest) ≡ rest
unfolding be
drop-key key rest = refl

length-length_field : (len : ℕ) → length (length_field len) + 5 ≡ header_size len
unfolding length_field header_size
length-length_field len = elim (Bool-cases (ltb len 126)) [
  | inl short ↦
      let a : leb 126 len ≡ false = ground arith in
      let b : ltb 0xffff len ≡ false = ground arith in rw (short, a, b) refl
  | inr long ↦ elim (Bool-cases (leb len 0xffff)) [
    | inl two ↦
        let a : leb 126 len ≡ true = ground arith in
        rw (long, two, a) (omega (arith, length-be 2 len))
    | inr eight ↦
        let a : leb 126 len ≡ true = ground arith in
        let b : ltb 0xffff len ≡ true = ground arith in
        rw (long, eight, a, b) (omega (arith, length-be 8 len))
  ]
]

-- The header of a frame of the encoder.
abbrev pub client_header : WsOpcode → ℕ → FrameHeader
client_header op len = record {
  fin = true;
  opcode = op;
  masked = true;
  payload_len = len;
  header = header_size len;
}

module _ (op : WsOpcode) (payload : List ℕ) (key : ℕ) (rest : List ℕ) where
  -- The bytes in front of the mask.
  prefix : List ℕ
  prefix = (bit_or 0x80 op % 256) ∷ length_field (length payload)

  masked : List ℕ
  masked = mask_payload (be 4 key) payload

  frame-parts : encode_ws_frame op payload key [] ++ rest ≡ prefix ++ (be 4 key ++ (masked ++ rest))
  unfolding encode_ws_frame prefix masked
  frame-parts =
      ap (λ (t : List ℕ). (bit_or 0x80 op % 256) ∷ t)
        (append_assoc (length_field (length payload)) (be 4 key ++ masked) rest
          ∙ ap (λ (t : List ℕ). length_field (length payload) ++ t)
              (append_assoc (be 4 key) masked rest))

  length-prefix : length prefix ≡ header_size (length payload) - 4
  unfolding prefix
  length-prefix = omega (arith, length-length_field (length payload))

  length-masked : length masked ≡ length payload
  unfolding masked
  length-masked =
      ap length (mask_payload-mask_from key payload) ∙ length-mask_from (be 4 key) 0 payload

  drop-prefix :
      drop (header_size (length payload) - 4) (prefix ++ (be 4 key ++ (masked ++ rest)))
      ≡ be 4 key ++ (masked ++ rest)
  drop-prefix = rw (sym length-prefix) (drop-length-append prefix (be 4 key ++ (masked ++ rest)))

  drop-header :
      drop (header_size (length payload)) (prefix ++ (be 4 key ++ (masked ++ rest)))
      ≡ masked ++ rest
  drop-header =
      let e : header_size (length payload) ≡ (header_size (length payload) - 4) + 4 =
        omega (arith, length-length_field (length payload)) in
      rw e (
        sym (drop-drop 4 (header_size (length payload) - 4) _)
        ∙ ap (drop 4) drop-prefix
        ∙ drop-key key (masked ++ rest))

  pub read_header-frame :
      op < 16
      → length payload < 2 ^ 64
      → read_header (encode_ws_frame op payload key [] ++ rest)
        ≡ some (client_header op (length payload))
  unfolding prefix
  read_header-frame small fits =
      ap read_header frame-parts
      ∙ read_header-length_field _ (length payload) _ fits
      ∙ rw (flagged_low4 op small, flagged_high op (omega arith)) refl

  pub body_of-frame :
      All IsByte payload
      → body_of (client_header op (length payload)) (encode_ws_frame op payload key [] ++ rest)
        ≡ payload
  unfolding body_of masked
  body_of-frame bytes =
      let e = take-key key (masked ++ rest) in
      let f : take (length payload) (masked ++ rest) ≡ masked =
        rw (sym length-masked) (take-length-append masked rest) in
      rw (frame-parts, drop-prefix, drop-header, e, f, mask_payload-mask_from key payload)
        (mask_from_twice (be 4 key) 0 payload (be-IsByte 4 key) bytes)

  pub length-frame :
      length (encode_ws_frame op payload key [] ++ rest)
      ≡ header_size (length payload) + length payload + length rest
  length-frame =
      ap length frame-parts
      ∙ omega (
        arith,
        length-prefix,
        length-length_field (length payload),
        length-masked,
        length-be 4 key,
        length-append prefix (be 4 key ++ (masked ++ rest)),
        length-append (be 4 key) (masked ++ rest),
        length-append masked rest,
      )

pub header_size_pos : (len : ℕ) → 0 < header_size len
header_size_pos len = omega (arith, length-length_field len)

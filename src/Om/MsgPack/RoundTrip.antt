-- ===== src/Om/MsgPack/RoundTrip.antt =====
-- What the writer appends, against a decoder of MessagePack.
use hyperliquid_cpp.Base.{
  ℕ, zero, suc, ◌+◌, ◌-◌, ◌*◌, ◌%◌, ◌^◌, ◌<◌, ◌≡◌, refl, sym, ap, ◌∙◌, true, false, Option, none,
  some, List, [], ◌∷◌, ◌++◌, ltb, leb, length, Bool-cases, inl, inr, arith, append_assoc, ltb→lt,
  leb→le, take-length-append, drop-length-append, length-append, append-nil, map, All,
}
use hyperliquid_cpp.Base.Int.{pos, negsuc}
use hyperliquid_cpp.Base.Bytes.{be, read_be, read_be-be, bit_or_0x80, bit_or_0x90, bit_or_0xa0}
use hyperliquid_cpp.Om.MsgPack.{
  Call, appended, write, write_all, uint, sint, str, map_header, array_header, boolean, nil,
  pattern64,
}
use hyperliquid_cpp.Om.MsgPack.Format.{Item, decode, signed_bits, read_text}

-- What a call stands for.
abbrev pub meaning : Call → Item
meaning (Call.map_call n) = Item.map_of n
meaning (Call.array_call n) = Item.array_of n
meaning (Call.str_call s) = Item.text s
meaning (Call.boolean_call b) = Item.boolean b
meaning Call.nil_call = Item.nil
meaning (Call.uint_call v) = Item.integer (pos v)
meaning (Call.sint_call v) = Item.integer v

-- The arguments that the format has room for: 32-bit sizes, and 64-bit integers.
abbrev pub Fits : Call → Type 0
Fits (Call.map_call n) = n < 2 ^ 32
Fits (Call.array_call n) = n < 2 ^ 32
Fits (Call.str_call s) = length s < 2 ^ 32
Fits (Call.boolean_call b) = Unit {0}
Fits Call.nil_call = Unit {0}
Fits (Call.uint_call v) = v < 2 ^ 64
Fits (Call.sint_call (pos v)) = v < 2 ^ 63
Fits (Call.sint_call (negsuc n)) = n < 2 ^ 63

read_one : (b : ℕ) (rest : List ℕ) → read_be 1 (b ∷ rest) 0 ≡ some (b, rest)
unfolding read_be
read_one b rest = ground arith

-- The numbers that the widths hold, read back from 0.
read_two : (v : ℕ) → v < 2 ^ 16 → 0 * 256 ^ 2 + v % 2 ^ 16 % 256 ^ 2 ≡ v
read_two v h = omega arith

read_four : (v : ℕ) → v < 2 ^ 32 → 0 * 256 ^ 4 + v % 2 ^ 32 % 256 ^ 4 ≡ v
read_four v h = omega arith

read_eight : (v : ℕ) → v < 2 ^ 64 → 0 * 256 ^ 8 + v % 256 ^ 8 ≡ v
read_eight v h = omega arith

-- Each kind of call, with the bytes that follow it.
module _ (rest : List ℕ) where
  decode-uint : (v : ℕ) → v < 2 ^ 64 → decode (uint v ++ rest) ≡ some (Item.integer (pos v), rest)
  unfolding uint decode
  decode-uint v h = elim (Bool-cases (ltb v 0x80)) [
    | inl a ↦ rw a (ground arith)
    | inr a ↦ elim (Bool-cases (leb v 0xff)) [
      | inl b ↦ rw (a, b, read_one (v % 256) rest) (ground arith)
      | inr b ↦ elim (Bool-cases (leb v 0xffff)) [
        | inl c ↦
            rw (a, b, c, read_be-be 2 (v % 2 ^ 16) 0 rest)
              (ground (arith, read_two v (ground arith)))
        | inr c ↦ elim (Bool-cases (leb v 0xffff_ffff)) [
          | inl d ↦
              rw (a, b, c, d, read_be-be 4 (v % 2 ^ 32) 0 rest)
                (ground (arith, read_four v (ground arith)))
          | inr d ↦ rw (a, b, c, d, read_be-be 8 v 0 rest) (ground (arith, read_eight v h))
        ]
      ]
    ]
  ]

  decode-map_header :
      (n : ℕ) → n < 2 ^ 32 → decode (map_header n ++ rest) ≡ some (Item.map_of n, rest)
  unfolding map_header decode
  decode-map_header n h = elim (Bool-cases (ltb n 16)) [
    | inl a ↦ rw (a, bit_or_0x80 n (omega (arith, ltb→lt n 16 a))) (ground arith)
    | inr a ↦ elim (Bool-cases (leb n 0xffff)) [
      | inl b ↦
          rw (a, b, read_be-be 2 (n % 2 ^ 16) 0 rest) (ground (arith, read_two n (ground arith)))
      | inr b ↦ rw (a, b, read_be-be 4 (n % 2 ^ 32) 0 rest) (ground (arith, read_four n h))
    ]
  ]

  decode-array_header :
      (n : ℕ) → n < 2 ^ 32 → decode (array_header n ++ rest) ≡ some (Item.array_of n, rest)
  unfolding array_header decode
  decode-array_header n h = elim (Bool-cases (ltb n 16)) [
    | inl a ↦ rw (a, bit_or_0x90 n (ltb→lt n 16 a)) (ground arith)
    | inr a ↦ elim (Bool-cases (leb n 0xffff)) [
      | inl b ↦
          rw (a, b, read_be-be 2 (n % 2 ^ 16) 0 rest) (ground (arith, read_two n (ground arith)))
      | inr b ↦ rw (a, b, read_be-be 4 (n % 2 ^ 32) 0 rest) (ground (arith, read_four n h))
    ]
  ]

  decode-sint_negative :
      (n : ℕ) → n < 2 ^ 63 → decode (sint (negsuc n) ++ rest) ≡ some (Item.integer (negsuc n), rest)
  unfolding sint decode signed_bits
  decode-sint_negative n h = elim (Bool-cases (leb (suc n) 32)) [
    | inl a ↦ rw a (ground arith)
    | inr a ↦ elim (Bool-cases (leb (suc n) 128)) [
      | inl b ↦ rw (a, b, read_one (pattern64 n % 256) rest) (ground arith)
      | inr b ↦ elim (Bool-cases (leb (suc n) 32768)) [
        | inl c ↦ rw (a, b, c, read_be-be 2 (pattern64 n % 2 ^ 16) 0 rest) (ground arith)
        | inr c ↦ elim (Bool-cases (leb (suc n) 2147483648)) [
          | inl d ↦ rw (a, b, c, d, read_be-be 4 (pattern64 n % 2 ^ 32) 0 rest) (ground arith)
          | inr d ↦ rw (a, b, c, d, read_be-be 8 (pattern64 n) 0 rest) (ground arith)
        ]
      ]
    ]
  ]

  read_text_taken :
      (s : List ℕ) (n : ℕ)
      → n ≡ length s
      → read_text (some (n, s ++ rest)) ≡ some (Item.text s, rest)
  unfolding read_text
  read_text_taken s n h =
      let e : leb (length s) (length (s ++ rest)) ≡ true = ground (arith, length-append s rest) in
      rw (h, e, take-length-append s rest, drop-length-append s rest)

  decode_short_text :
      (n : ℕ) (bs : List ℕ) → n < 32 → decode (((160 + n) % 256) ∷ bs) ≡ read_text (some (n, bs))
  unfolding decode
  decode_short_text n bs h =
      let e : (160 + n) % 256 ≡ 160 + n = omega arith in
      let d : 160 + n - 160 ≡ n = omega arith in
      let a : ltb (160 + n) 128 ≡ false = ground arith in
      let b : ltb (160 + n) 144 ≡ false = ground arith in
      let c : ltb (160 + n) 160 ≡ false = ground arith in
      let f : ltb (160 + n) 192 ≡ true = ground arith in rw (e, a, b, c, f, d)

  decode_long_text :
      (bs : List ℕ)
      → (decode (0xd9 ∷ bs) ≡ read_text (read_be 1 bs 0))
        × (decode (0xda ∷ bs) ≡ read_text (read_be 2 bs 0))
        × (decode (0xdb ∷ bs) ≡ read_text (read_be 4 bs 0))
  unfolding decode
  decode_long_text bs = (refl, refl, refl)

  decode-str : (s : List ℕ) → length s < 2 ^ 32 → decode (str s ++ rest) ≡ some (Item.text s, rest)
  unfolding str
  decode-str s h = elim (Bool-cases (ltb (length s) 32)) [
    | inl a ↦
        rw (a, bit_or_0xa0 (length s) (ltb→lt (length s) 32 a))
          (decode_short_text (length s) (s ++ rest) (ltb→lt (length s) 32 a)
            ∙ read_text_taken s (length s) refl)
    | inr a ↦ elim (Bool-cases (leb (length s) 0xff)) [
      | inl b ↦
          rw (a, b)
            ((decode_long_text ((length s % 256) ∷ (s ++ rest))).0
              ∙ ap read_text (read_one (length s % 256) (s ++ rest))
              ∙ read_text_taken s (length s % 256) (omega (arith, leb→le _ _ b)))
      | inr b ↦ elim (Bool-cases (leb (length s) 0xffff)) [
        | inl c ↦
            rw (a, b, c, append_assoc (be 2 (length s % 2 ^ 16)) s rest)
              ((decode_long_text _).1
                ∙ ap read_text (read_be-be 2 (length s % 2 ^ 16) 0 (s ++ rest))
                ∙ read_text_taken s _ (read_two (length s) (omega (arith, leb→le _ _ c))))
        | inr c ↦
            rw (a, b, c, append_assoc (be 4 (length s % 2 ^ 32)) s rest)
              ((decode_long_text _).2
                ∙ ap read_text (read_be-be 4 (length s % 2 ^ 32) 0 (s ++ rest))
                ∙ read_text_taken s _ (read_four (length s) h))
      ]
    ]
  ]

  decode-appended : (c : Call) → Fits c → decode (appended c ++ rest) ≡ some (meaning c, rest)
  unfolding appended
  decode-appended (Call.map_call n) h = decode-map_header n h
  decode-appended (Call.array_call n) h = decode-array_header n h
  decode-appended (Call.str_call s) h = decode-str s h
  decode-appended (Call.boolean_call true) h = unfold boolean decode in refl
  decode-appended (Call.boolean_call false) h = unfold boolean decode in refl
  decode-appended Call.nil_call h = unfold nil decode in refl
  decode-appended (Call.uint_call v) h = decode-uint v h
  decode-appended (Call.sint_call (pos v)) h = unfold sint in decode-uint v (omega (arith, h))
  decode-appended (Call.sint_call (negsuc n)) h = decode-sint_negative n h

-- The bytes of several calls.
bytes_of : List Call → List ℕ
bytes_of [] = []
bytes_of (c ∷ cs) = appended c ++ bytes_of cs

write_all-bytes_of : (cs : List Call) (buf : List ℕ) → write_all buf cs ≡ buf ++ bytes_of cs
unfolding write_all write bytes_of
write_all-bytes_of [] buf = sym (append-nil buf)
write_all-bytes_of (c ∷ cs) buf =
    write_all-bytes_of cs (buf ++ appended c) ∙ append_assoc buf (appended c) (bytes_of cs)

-- As many items as are asked for, read one after the other.
pub decode_items : ℕ → List ℕ → Option (List Item × List ℕ)
decode_items zero bs = some ([], bs)
decode_items (suc n) bs = elim (decode bs) [
  | none ↦ none
  | some (i, rest) ↦ elim (decode_items n rest) [
    | none ↦ none
    | some (is, end) ↦ some (i ∷ is, end)
  ]
]

decode_items-bytes_of :
    (cs : List Call) (rest : List ℕ)
    → All Fits cs
    → decode_items (length cs) (bytes_of cs ++ rest) ≡ some (map meaning cs, rest)
unfolding decode_items bytes_of
decode_items-bytes_of [] rest h = refl
decode_items-bytes_of (c ∷ cs) rest h = rw (
  append_assoc (appended c) (bytes_of cs) rest,
  decode-appended (bytes_of cs ++ rest) c h.0,
  decode_items-bytes_of cs rest h.1,
  decode_items,
)

-- For arguments that the format has room for, the buffer that a sequence of calls fills decodes, by
-- the MessagePack format, to exactly the items that the calls stand for, whatever bytes follow.
pub decode_items-write_all :
    (cs : List Call) (rest : List ℕ)
    → All Fits cs
    → decode_items (length cs) (write_all [] cs ++ rest) ≡ some (map meaning cs, rest)
decode_items-write_all cs rest h = rw (write_all-bytes_of cs []) (decode_items-bytes_of cs rest h)

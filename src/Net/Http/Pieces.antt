-- ===== src/Net/Http/Pieces.antt =====
-- The parser takes the bytes as they come: how they are cut into pieces does not matter.
use hyperliquid_cpp.Base.{
  ℕ, zero, suc, ◌≤◌, ◌≡◌, refl, sym, ap, ◌∙◌, ◌≢◌, inl, inr, true, false, Option, none, some, List,
  [], ◌∷◌, ◌++◌, arith, ltb, ◌==◌, Bool-cases, length,
}
use hyperliquid_cpp.Net.Http.Text.{trim}
use hyperliquid_cpp.Net.Http.Head.{
  Phase, in_head, fixed_body, chunk_size, chunk_data, chunk_data_crlf, trailer, until_close,
  finished, HttpResponseParser, need_more, complete, failed,
}
use hyperliquid_cpp.Net.Http.Feed.{
  Round, goes, fails, failing, on_chunk_size, push_line, size_round, trailer_round, feed_round,
  is_finished, Fed, ended, after_round, feed_loop,
}
use hyperliquid_cpp.Net.Http.Bytes.{next_byte, feed_bytes, IsBetween}
use hyperliquid_cpp.Net.Http.Heads.{head-Follows}
use hyperliquid_cpp.Net.Http.Rounds.{
  Follows, step-feed_bytes, IsBetween-at, fixed_body-Follows, chunk_data-Follows, crlf-Follows,
  close-Follows,
}

failed-ne-need_more : failed ≢ need_more
failed-ne-need_more e = cc

complete-ne-need_more : complete ≢ need_more
complete-ne-need_more e = cc

-- A round on one byte goes on as the machine does, whatever follows the byte.
Steps : HttpResponseParser → ℕ → (List ℕ → Round) → Type 0
Steps p c round =
    (rest : List ℕ)
    → Follows (next_byte (λ p'. feed_bytes p' rest) (round [])) (length rest) (round rest)

goes-Steps :
    (p q : HttpResponseParser) (c : ℕ) (ph : Phase)
    → q.phase ≡ ph
    → ((n : ℕ) → IsBetween ph q n)
    → Steps p c (λ rest. goes q rest)
unfolding Steps Follows next_byte
goes-Steps p q c ph e light rest = (refl, (omega arith, IsBetween-at q _ ph e (light _)))

fails-Steps : (p q : HttpResponseParser) (c : ℕ) → Steps p c (λ rest. fails q)
unfolding Steps Follows next_byte
fails-Steps p q c rest = refl

push_line-Steps :
    (p : HttpResponseParser) (c : ℕ) (ph : Phase)
    → p.phase ≡ ph
    → ((q : HttpResponseParser) (n : ℕ) → IsBetween ph q n)
    → Steps p c (push_line p c)
unfolding Steps push_line failing
push_line-Steps p c ph e light rest = elim (Bool-cases (ltb 1024 (length (p.line ++ (c ∷ []))))) [
  | inl t ↦ rw t (fails-Steps p _ c rest)
  | inr t ↦ rw t (goes-Steps p _ c ph e (light _) rest)
]

on_chunk_size-Steps :
    (p : HttpResponseParser) (c : ℕ) (o : Option ℕ) → Steps p c (on_chunk_size p o)
unfolding Steps on_chunk_size failing IsBetween
on_chunk_size-Steps p c none rest = fails-Steps p _ c rest
on_chunk_size-Steps p c (some size) rest = elim (Bool-cases (size == 0)) [
  | inl t ↦ rw t (goes-Steps p _ c trailer refl (λ n. tt) rest)
  | inr t ↦ rw t (goes-Steps p _ c chunk_data refl (λ n. ground arith) rest)
]

size_round-Steps :
    (p : HttpResponseParser) (c : ℕ) → p.phase ≡ chunk_size → Steps p c (size_round p c)
unfolding Steps size_round IsBetween
size_round-Steps p c e rest = elim (Bool-cases (c == b'\n')) [
  | inl t ↦ rw t (on_chunk_size-Steps p c _ rest)
  | inr t ↦ rw t (push_line-Steps p c chunk_size e (λ q n. tt) rest)
]

trailer_round-Steps :
    (p : HttpResponseParser) (c : ℕ) → p.phase ≡ trailer → Steps p c (trailer_round p c)
unfolding Steps trailer_round IsBetween
trailer_round-Steps p c e rest = elim (Bool-cases (c == b'\n')) [
  | inl t ↦ elim (Bool-cases (length (trim p.line) == 0)) [
    | inl u ↦ rw (t, u) (goes-Steps p _ c finished refl (λ n. tt) rest)
    | inr u ↦ rw (t, u) (goes-Steps p _ c trailer e (λ n. tt) rest)
  ]
  | inr t ↦ rw t (push_line-Steps p c trailer e (λ q n. tt) rest)
]

round-Follows :
    (p : HttpResponseParser) (c : ℕ) (rest : List ℕ) (ph : Phase)
    → p.phase ≡ ph
    → is_finished ph ≡ false
    → IsBetween ph p (suc (length rest))
    → Follows (feed_bytes p (c ∷ rest)) (length rest) (feed_round ph p c rest)
unfolding feed_round IsBetween is_finished Steps
round-Follows p c rest in_head e busy b = head-Follows rest p c e b
round-Follows p c rest fixed_body e busy b = fixed_body-Follows p c rest e b
round-Follows p c rest chunk_size e busy b =
    rw (step-feed_bytes p c rest chunk_size e refl) (size_round-Steps p c e rest)
round-Follows p c rest chunk_data e busy b = chunk_data-Follows p c rest e b
round-Follows p c rest chunk_data_crlf e busy b = crlf-Follows p c rest e b
round-Follows p c rest trailer e busy b =
    rw (step-feed_bytes p c rest trailer e refl) (trailer_round-Steps p c e rest)
round-Follows p c rest until_close e busy b = close-Follows p c rest e
round-Follows p c rest finished e busy b = absurd (ground arith)

-- The fuel for one round on each byte is enough, and the rounds do what the machine does.
after_round-Follows :
    (fed : Fed) (fuel n : ℕ) (r : Round)
    → ((p : HttpResponseParser) (data' : List ℕ)
        → length data' ≤ fuel
        → IsBetween p.phase p (length data')
        → feed_loop fuel p data' ≡ some (feed_bytes p data'))
    → n ≤ fuel
    → Follows fed n r
    → after_round (feed_loop fuel) r ≡ some fed
unfolding after_round Follows
after_round-Follows fed fuel n (goes p left) again le h =
    again p left (omega (arith, le, h.1.0)) h.1.1 ∙ ap some (sym h.0)
after_round-Follows fed fuel n (fails p) again le h = ap some (sym h)

-- A complete response takes no more bytes.
finished-feed_bytes :
    (p : HttpResponseParser) (c : ℕ) (rest : List ℕ)
    → is_finished p.phase ≡ true
    → feed_bytes p (c ∷ rest) ≡ (p, complete, c ∷ rest)
unfolding feed_bytes ended
finished-feed_bytes p c rest h = rw h refl

ended-rest :
    (p : HttpResponseParser) (rest : List ℕ)
    → is_finished p.phase ≡ true
    → ended p rest ≡ (p, complete, rest)
unfolding ended
ended-rest p rest h = rw h refl

-- A call of `feed` on any bytes ends within one round for each byte, and leaves the parser, the
-- status and the unused bytes that a machine leaves which is given the bytes one at a time. The
-- parser stands between two calls, with a head that stays within 64 KiB.
pub feed_loop-feed_bytes :
    (fuel : ℕ) (p : HttpResponseParser) (bytes : List ℕ)
    → length bytes ≤ fuel
    → IsBetween p.phase p (length bytes)
    → feed_loop fuel p bytes ≡ some (feed_bytes p bytes)
unfolding feed_loop
feed_loop-feed_bytes fuel p [] le b = unfold feed_bytes in refl
feed_loop-feed_bytes zero p (c ∷ rest) le b = absurd (omega arith)
feed_loop-feed_bytes (suc fuel) p (c ∷ rest) le b = elim (Bool-cases (is_finished p.phase)) [
  | inl t ↦ rw t (ap some (ended-rest p (c ∷ rest) t ∙ sym (finished-feed_bytes p c rest t)))
  | inr t ↦ rw t (
      after_round-Follows (feed_bytes p (c ∷ rest)) fuel (length rest) _ (feed_loop-feed_bytes fuel)
        (omega arith) (round-Follows p c rest p.phase refl t b))
]

-- A machine that wants more bytes goes on with them.
next_byte-append :
    (xs ys : List ℕ) (q : HttpResponseParser) (r : Round)
    → ((p : HttpResponseParser)
        → feed_bytes p xs ≡ (q, need_more, [])
        → feed_bytes p (xs ++ ys) ≡ feed_bytes q ys)
    → next_byte (λ p. feed_bytes p xs) r ≡ (q, need_more, [])
    → next_byte (λ p. feed_bytes p (xs ++ ys)) r ≡ feed_bytes q ys
unfolding next_byte
next_byte-append xs ys q (goes p left) again e = again p e
next_byte-append xs ys q (fails p) again e = absurd (failed-ne-need_more (ap (λ (t : Fed). t.1) e))

feed_bytes-append :
    (xs ys : List ℕ) (p q : HttpResponseParser)
    → feed_bytes p xs ≡ (q, need_more, [])
    → feed_bytes p (xs ++ ys) ≡ feed_bytes q ys
unfolding feed_bytes ended
feed_bytes-append [] ys p q e = ap (λ (t : Fed). feed_bytes t.0 ys) e
feed_bytes-append (c ∷ xs) ys p q e = elim (Bool-cases (is_finished p.phase)) [
  | inl t ↦
      absurd
        (complete-ne-need_more (ap (λ (u : Fed). u.1) (sym (finished-feed_bytes p c xs t) ∙ e)))
  | inr t ↦
      step-feed_bytes p c (xs ++ ys) p.phase refl t
      ∙ next_byte-append xs ys q (feed_round p.phase p c []) (λ p'. feed_bytes-append xs ys p' q)
          (sym (step-feed_bytes p c xs p.phase refl t) ∙ e)
]

result_or : Fed → Option Fed → Fed
result_or d none = d
result_or d (some fed) = fed

-- When `feed` wants more bytes after a piece, and is given another piece, the parser, the status and
-- the unused bytes are those of one call on both pieces together. The parser stands between two calls,
-- with a head that stays within 64 KiB.
pub feed_loop-append :
    (p q : HttpResponseParser) (xs ys : List ℕ)
    → IsBetween p.phase p (length xs)
    → IsBetween p.phase p (length (xs ++ ys))
    → IsBetween q.phase q (length ys)
    → feed_loop (length xs) p xs ≡ some (q, need_more, [])
    → feed_loop (length (xs ++ ys)) p (xs ++ ys) ≡ feed_loop (length ys) q ys
unfolding result_or
feed_loop-append p q xs ys b both b' e =
    feed_loop-feed_bytes (length (xs ++ ys)) p (xs ++ ys) (omega arith) both
    ∙ ap some (
        feed_bytes-append xs ys p q (
          ap (result_or (ended p []))
            (sym (feed_loop-feed_bytes (length xs) p xs (omega arith) b) ∙ e)))
    ∙ sym (feed_loop-feed_bytes (length ys) q ys (omega arith) b')

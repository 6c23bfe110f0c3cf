-- ===== src/Net/Http/Feed.antt =====
-- src/net/HttpCodec.cpp: `feed`, round by round over the bytes that are left, and `finishOnClose`.
-- What `consumed` receives is the length of the data less what a call leaves.
use hyperliquid_cpp.Base.{
  ℕ, zero, suc, ◌+◌, ◌-◌, ◌*◌, min, Bool, true, false, not, Option, none, some, List, [], ◌∷◌, ◌++◌,
  ltb, ◌==◌, if◌then◌else◌, length, take, drop, codes,
}
use hyperliquid_cpp.Net.Http.Text.{trim, find, from_chars_u64}
use hyperliquid_cpp.Net.Http.Head.{
  Phase, in_head, fixed_body, chunk_size, chunk_data, chunk_data_crlf, trailer, until_close,
  finished, HttpResponseParser, HttpStatus, need_more, complete, failed, fail, parse_head,
}

-- How a round ends: with bytes left to take, or with an error.
pub data Round : Type 0 where
  goes : HttpResponseParser → List ℕ → Round
  fails : HttpResponseParser → Round

unfoldable pub failing : HttpResponseParser → List ℕ → Round
failing p message = fails (record p { error = message })

abbrev pub blank_line : List ℕ
blank_line = b'\r' ∷ b'\n' ∷ b'\r' ∷ b'\n' ∷ []

unfoldable pub parsed : List ℕ → HttpResponseParser × HttpStatus → Round
parsed rest (p, need_more) = goes p rest
parsed rest (p, complete) = goes p rest
parsed rest (p, failed) = fails p

-- The head with all of `rest` behind it, and where the blank line is in the part that is searched.
unfoldable pub take_head : HttpResponseParser → List ℕ → ℕ → ℕ → Option ℕ → Round
take_head p rest before search_from none =
    let p' = record p { head = p.head ++ rest } in
    if ltb (64 * 1024) (length p'.head)
    then failing p' (codes "response head too large")
    else goes p' []
take_head p rest before search_from (some i) =
    let head_len = search_from + i + 4 in
    parsed (drop (head_len - before) rest)
      (parse_head (record p { head = take head_len (p.head ++ rest) }))

unfoldable pub head_round : HttpResponseParser → List ℕ → Round
head_round p rest =
    let before = length p.head in
    let search_from = before - 3 in
    take_head p rest before search_from (find blank_line (drop search_from (p.head ++ rest)))

-- A body of known length, and the data of a chunk: as much as there is, up to what remains.
unfoldable pub data_round : Phase → ℕ → HttpResponseParser → List ℕ → Round
data_round next remaining p rest =
    let n = min p.remaining (length rest) in
    let p' = record p {
      response = record p.response { body = p.response.body ++ take n rest };
      remaining = p.remaining - n;
    } in
    goes (if p'.remaining == 0 then record p' { phase = next; remaining = remaining } else p')
      (drop n rest)

unfoldable pub on_chunk_size : HttpResponseParser → Option ℕ → List ℕ → Round
on_chunk_size p none rest = failing p (codes "bad chunk size")
on_chunk_size p (some size) rest =
    let p' = record p { line = [] } in
    goes
      (if size == 0
        then record p' { phase = trailer }
        else record p' { remaining = size; phase = chunk_data })
      rest

-- The part of a chunk's line in front of a semicolon.
unfoldable pub before_semicolon : List ℕ → List ℕ
before_semicolon line = elim (find (b';' ∷ []) line) [ none ↦ line | some i ↦ take i line ]

-- A character of a chunk's line that is not the end of it.
unfoldable pub push_line : HttpResponseParser → ℕ → List ℕ → Round
push_line p c rest =
    let p' = record p { line = p.line ++ (c ∷ []) } in
    if ltb 1024 (length p'.line) then failing p' (codes "chunk header too long") else goes p' rest

unfoldable pub size_round : HttpResponseParser → ℕ → List ℕ → Round
size_round p c rest =
    if not (c == b'\n')
    then push_line p c rest
    else on_chunk_size p (from_chars_u64 16 (before_semicolon (trim p.line))) rest

unfoldable pub trailer_round : HttpResponseParser → ℕ → List ℕ → Round
trailer_round p c rest =
    if not (c == b'\n')
    then push_line p c rest
    else goes
        (record p { line = []; phase = if length (trim p.line) == 0 then finished else p.phase })
        rest

unfoldable pub crlf_round : HttpResponseParser → List ℕ → Round
crlf_round p rest =
    let p' = record p { remaining = p.remaining - 1 } in
    goes (if p'.remaining == 0 then record p' { phase = chunk_size } else p') rest

unfoldable pub close_round : HttpResponseParser → List ℕ → Round
close_round p rest =
    goes (record p { response = record p.response { body = p.response.body ++ rest } }) []

-- The switch on the phase, for the byte `c` with `rest` behind it.
unfoldable pub feed_round : Phase → HttpResponseParser → ℕ → List ℕ → Round
feed_round in_head p c rest = head_round p (c ∷ rest)
feed_round fixed_body p c rest = data_round finished 0 p (c ∷ rest)
feed_round chunk_size p c rest = size_round p c rest
feed_round chunk_data p c rest = data_round chunk_data_crlf 2 p (c ∷ rest)
feed_round chunk_data_crlf p c rest = crlf_round p rest
feed_round trailer p c rest = trailer_round p c rest
feed_round until_close p c rest = close_round p (c ∷ rest)
feed_round finished p c rest = goes p (c ∷ rest)

unfoldable pub is_finished : Phase → Bool
is_finished in_head = false
is_finished fixed_body = false
is_finished chunk_size = false
is_finished chunk_data = false
is_finished chunk_data_crlf = false
is_finished trailer = false
is_finished until_close = false
is_finished finished = true

-- What a call of `feed` gives: the parser, the status, and the bytes that are left.
abbrev pub Fed : Type 0
Fed = HttpResponseParser × HttpStatus × List ℕ

unfoldable pub ended : HttpResponseParser → List ℕ → Fed
ended p rest = (p, (if is_finished p.phase then complete else need_more), rest)

unfoldable pub after_round : (HttpResponseParser → List ℕ → Option Fed) → Round → Option Fed
after_round next (goes p rest) = next p rest
after_round next (fails p) = some (p, failed, [])

-- The loop of `feed`; none when the fuel runs out.
unfoldable pub feed_loop : ℕ → HttpResponseParser → List ℕ → Option Fed
feed_loop fuel p [] = some (ended p [])
feed_loop zero p (c ∷ rest) = none
feed_loop (suc fuel) p (c ∷ rest) =
    let more = after_round (feed_loop fuel) (feed_round p.phase p c rest) in
    if is_finished p.phase then some (ended p (c ∷ rest)) else more

-- The test of `finishOnClose` on the phase.
unfoldable pub on_close : Phase → HttpResponseParser → HttpResponseParser × HttpStatus
on_close until_close p = (record p { phase = finished }, complete)
on_close finished p = (record p { phase = finished }, complete)
on_close in_head p = fail p (codes "connection closed mid-response")
on_close fixed_body p = fail p (codes "connection closed mid-response")
on_close chunk_size p = fail p (codes "connection closed mid-response")
on_close chunk_data p = fail p (codes "connection closed mid-response")
on_close chunk_data_crlf p = fail p (codes "connection closed mid-response")
on_close trailer p = fail p (codes "connection closed mid-response")

unfoldable pub finish_on_close : HttpResponseParser → HttpResponseParser × HttpStatus
finish_on_close p = on_close p.phase p

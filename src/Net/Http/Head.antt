-- ===== src/Net/Http/Head.antt =====
-- src/net/HttpCodec.cpp: the parser's state, and `parseHead`.
use hyperliquid_cpp.Base.{
  ℕ, zero, suc, ◌+◌, ◌-◌, ◌%◌, ◌^◌, Bool, true, false, ◌&&◌, ◌||◌, not, Option, none, some, List,
  [], ◌∷◌, ltb, ◌==◌, if◌then◌else◌, length, take, drop, codes,
}
use hyperliquid_cpp.Base.Int.{ℤ, pos, negsuc, eq_ℤ, le_ℤ, lt_ℤ}
use hyperliquid_cpp.Net.Http.Text.{
  starts_with, iequals_prefix, trim, find, contains_token_ci, from_chars_u64, from_chars_int,
}

pub data Phase : Type 0 where
  in_head fixed_body chunk_size chunk_data chunk_data_crlf trailer until_close finished : Phase

pub record HttpResponse : Type 0 where
  pub status : ℤ
  pub body : List ℕ
  pub keep_alive : Bool
  pub retry_after_seconds : ℤ

pub record HttpResponseParser : Type 0 where
  pub phase : Phase
  pub head : List ℕ
  pub line : List ℕ
  pub remaining : ℕ
  pub response : HttpResponse
  pub error : List ℕ

pub data HttpStatus : Type 0 where
  need_more complete failed : HttpStatus

abbrev pub empty_response : HttpResponse
empty_response = record {
  status = pos 0;
  body = [];
  keep_alive = true;
  retry_after_seconds = pos 0;
}

-- A parser after `reset`.
abbrev pub fresh_parser : HttpResponseParser
fresh_parser = record {
  phase = in_head;
  head = [];
  line = [];
  remaining = 0;
  response = empty_response;
  error = [];
}

abbrev pub crlf : List ℕ
crlf = b'\r' ∷ b'\n' ∷ []

-- The conversion of a uint64_t to int.
unfoldable pub to_int32 : ℕ → ℤ
to_int32 v = let w = v % 2 ^ 32 in if ltb w (2 ^ 31) then pos w else negsuc (2 ^ 32 - 1 - w)

-- What the header lines say so far; `bad` is a content length that cannot be read.
pub record Headers : Type 0 where
  pub chunked : Bool
  pub have_length : Bool
  pub content_length : ℕ
  pub keep_alive : Bool
  pub retry_after : ℤ
  pub bad : Bool

unfoldable pub with_length : Headers → Option ℕ → Headers
with_length h none = record h { bad = true }
with_length h (some v) = record h { content_length = v; have_length = true }

unfoldable pub with_retry : Headers → Option ℕ → Headers
with_retry h none = h
with_retry h (some v) = record h { retry_after = to_int32 v }

unfoldable pub with_connection : Headers → List ℕ → Headers
with_connection h value =
    if contains_token_ci value (codes "close")
    then record h { keep_alive = false }
    else if contains_token_ci value (codes "keep-alive")
    then record h { keep_alive = true }
    else h

-- A line with the value behind its first colon.
unfoldable pub header_line : Headers → List ℕ → List ℕ → Headers
header_line h line value =
    if iequals_prefix line (codes "content-length:")
    then with_length h (from_chars_u64 10 value)
    else if iequals_prefix line (codes "transfer-encoding:")
    then record h { chunked = contains_token_ci value (codes "chunked") }
    else if iequals_prefix line (codes "retry-after:")
    then with_retry h (from_chars_u64 10 value)
    else if iequals_prefix line (codes "connection:")
    then with_connection h value
    else h

unfoldable pub on_line : Headers → List ℕ → Headers
on_line h line = elim (find (b':' ∷ []) line) [
  | none ↦ h
  | some colon ↦ header_line h line (trim (drop (colon + 1) line))
]

-- One round of the loop over the lines: the loop ends at an empty line and at a bad length.
unfoldable pub header_step : (List ℕ → Headers → Headers) → Headers → List ℕ → Option ℕ → Headers
header_step next h text none = h
header_step next h text (some zero) = h
header_step next h text (some (suc n)) =
    let h' = on_line h (take (suc n) text) in if h'.bad then h' else next (drop (suc n + 2) text) h'

-- The lines of a text; as many rounds as it has characters are enough.
unfoldable pub header_lines : ℕ → List ℕ → Headers → Headers
header_lines zero text h = h
header_lines (suc fuel) text h =
    if length text == 0 then h else header_step (header_lines fuel) h text (find crlf text)

unfoldable pub fail : HttpResponseParser → List ℕ → HttpResponseParser × HttpStatus
fail p message = (record p { error = message }, failed)

unfoldable pub no_body : ℤ → Bool
no_body code =
    eq_ℤ code (pos 204) || eq_ℤ code (pos 304) || (le_ℤ (pos 100) code && lt_ℤ code (pos 200))

-- The end of `parseHead`: how the body is told.
unfoldable pub choose_body : HttpResponseParser → ℤ → Headers → HttpResponseParser
choose_body p code h =
    if no_body code
    then record p { phase = finished }
    else if h.chunked
    then record p { phase = chunk_size }
    else if h.have_length
    then record p {
      remaining = h.content_length;
      phase = if h.content_length == 0 then finished else fixed_body;
    }
    else record p { response = record p.response { keep_alive = false }; phase = until_close }

unfoldable pub after_headers : HttpResponseParser → ℤ → Headers → HttpResponseParser × HttpStatus
after_headers p code h =
    let r = record p.response {
      status = code;
      keep_alive = h.keep_alive;
      retry_after_seconds = h.retry_after;
    } in
    let p' = record p { response = r } in
    if h.bad then fail p' (codes "bad content-length") else (choose_body p' code h, need_more)

unfoldable pub on_status_line :
    HttpResponseParser → List ℕ → List ℕ → Option ℤ → HttpResponseParser × HttpStatus
on_status_line p status_line lines none = fail p (codes "malformed status code")
on_status_line p status_line lines (some code) = after_headers p code (
    header_lines (length lines) lines (record {
      chunked = false;
      have_length = false;
      content_length = 0;
      keep_alive = not (starts_with status_line (codes "HTTP/1.0"));
      retry_after = p.response.retry_after_seconds;
      bad = false;
    }))

unfoldable pub on_first_line :
    HttpResponseParser → List ℕ → List ℕ → HttpResponseParser × HttpStatus
on_first_line p status_line lines =
    if not (starts_with status_line (codes "HTTP/1.")) || ltb (length status_line) 12
    then fail p (codes "malformed status line")
    else on_status_line p status_line lines (from_chars_int (take 3 (drop 9 status_line)))

-- Without a line end, which a complete head has, the arithmetic on `npos` wraps to 1.
unfoldable pub parse_head : HttpResponseParser → HttpResponseParser × HttpStatus
parse_head p = elim (find crlf p.head) [
  | none ↦ on_first_line p p.head (drop 1 p.head)
  | some eol ↦ on_first_line p (take eol p.head) (drop (eol + 2) p.head)
]

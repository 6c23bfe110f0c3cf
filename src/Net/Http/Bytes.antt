-- ===== src/Net/Http/Bytes.antt =====
-- The specification of the parser: a machine that is given one byte at a time.
use hyperliquid_cpp.Base.{ℕ, ◌+◌, ◌*◌, ◌≤◌, ◌<◌, ◌≡◌, none, List, [], ◌∷◌, if◌then◌else◌, length}
use hyperliquid_cpp.Net.Http.Text.{find}
use hyperliquid_cpp.Net.Http.Head.{
  Phase, in_head, fixed_body, chunk_size, chunk_data, chunk_data_crlf, trailer, until_close,
  finished, HttpResponseParser, failed,
}
use hyperliquid_cpp.Net.Http.Feed.{
  Round, goes, fails, blank_line, feed_round, is_finished, Fed, ended,
}

-- The machine after a byte, given what follows.
unfoldable pub next_byte : (HttpResponseParser → Fed) → Round → Fed
next_byte next (goes p left) = next p
next_byte next (fails p) = (p, failed, [])

-- All bytes, one at a time, until the response is complete or refused.
unfoldable pub feed_bytes : HttpResponseParser → List ℕ → Fed
unfolding next_byte
feed_bytes p [] = ended p []
feed_bytes p (c ∷ rest) =
    let more = next_byte (λ p'. feed_bytes p' rest) (feed_round p.phase p c []) in
    if is_finished p.phase then ended p (c ∷ rest) else more

-- What holds between two bytes, while at most `room` bytes may still be added to the head: the head
-- has no blank line, and a part of the body that is being read is not yet complete.
unfoldable pub IsBetween : Phase → HttpResponseParser → ℕ → Type 0
IsBetween in_head p room = (find blank_line p.head ≡ none) × (length p.head + room ≤ 64 * 1024)
IsBetween fixed_body p room = 0 < p.remaining
IsBetween chunk_size p room = Unit {0}
IsBetween chunk_data p room = 0 < p.remaining
IsBetween chunk_data_crlf p room = 0 < p.remaining
IsBetween trailer p room = Unit {0}
IsBetween until_close p room = Unit {0}
IsBetween finished p room = Unit {0}

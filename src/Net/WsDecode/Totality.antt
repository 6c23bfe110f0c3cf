-- ===== src/Net/WsDecode/Totality.antt =====
-- The decoder's loop ends on any bytes, and keeps its buffers within bounds.
use hyperliquid_cpp.Base.{ℕ, ◌≤◌, ◌<◌, ◌≡◌, false, Option, some, List, [], length}
use hyperliquid_cpp.Net.WsDecode.{
  WsFrameDecoder, Event, Reaction, Status, Round, more, stop, abandoned, available,
}

-- Nothing is staged, the parts of a message are within the limit, and the read position is inside
-- the buffer.
unfoldable pub IsWithin : ℕ → WsFrameDecoder → Type 0
IsWithin limit d =
    (d.staging ≡ [] × d.max_message ≡ limit)
    × (length d.fragments ≤ limit × d.consumed ≤ length d.buffer)

-- The ends of a round keep the decoder within bounds, and a round that goes on has used bytes.
unfoldable pub IsSound :
    {S : Type 0} {sink : S → Event → S × List Reaction} → ℕ → ℕ → Round sink → Type 0
IsSound limit n (more d s) = IsWithin limit d × length (available d) < n
IsSound limit n (stop status d s) = IsWithin limit d
IsSound limit n (abandoned d s) = IsWithin limit d × d.decoding ≡ false

-- The same between two calls of `feed`.
unfoldable pub IsBetweenFeeds : ℕ → WsFrameDecoder → Type 0
IsBetweenFeeds limit d = IsWithin limit d × d.decoding ≡ false

module _ {S : Type 0} (sink : S → Event → S × List Reaction)
    (quiet : (s : S) (e : Event) → (sink s e).1 ≡ []) (limit : ℕ) where
  -- The loop gives a result, and it is one between two calls.
  IsDone : Option (WsFrameDecoder × S × Status) → Type 0
  IsDone o = (r : WsFrameDecoder × S × Status) × (o ≡ some r × IsBetweenFeeds limit r.0)

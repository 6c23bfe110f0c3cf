-- ===== src/Net/Http.antt =====
-- include/hl/net/HttpCodec.h and src/net/HttpCodec.cpp: the incremental HTTP/1.1 response parser.
-- Head.antt has the parser of a head and Feed.antt the loop over the bytes that arrive; Bytes.antt is
-- the specification, a machine that takes one byte at a time.
pub mod Text
pub mod Head
pub mod Feed
pub mod Bytes
pub mod Search
mod Rounds
mod Heads
pub mod Pieces
mod Runs

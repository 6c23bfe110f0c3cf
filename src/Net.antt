-- ===== src/Net.antt =====
-- The network layer: include/hl/net and src/net.
pub mod WsEncode
pub mod WsDecode
pub mod Http
pub mod WsSession
pub mod Base64
pub mod Url

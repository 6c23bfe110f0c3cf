-- ===== src/Om.antt =====
-- Order management: include/hl/om and src/om.
pub mod MsgPack
pub mod Nonce
pub mod Actions
pub mod RequestBuilder
pub mod AssetRegistry
pub mod Orders

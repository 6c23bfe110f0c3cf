-- ===== src/Core.antt =====
-- The core library: include/hl/core, src/core and src/json.
pub mod Decimal
pub mod Hex
pub mod Errors
pub mod Json

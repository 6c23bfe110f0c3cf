-- ===== src/Md.antt =====
-- Market data: include/hl/md and src/md.
pub mod OrderBook

-- ===== src/Data.antt =====
-- new/src/data: the market data that the agents read.
pub mod BarBuffer

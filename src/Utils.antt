-- ===== src/Utils.antt =====
-- new/src/utils: the casts and the ticker rules that the other parts share.
pub mod SafeCast
pub mod TickerUtils
pub mod RateLimiter

-- ===== src/DynamicUniverse.antt =====
-- new/src/dynamic_universe: the universe of stocks that changes by day.
pub mod Gate
pub mod Admission
pub mod Holdings
pub mod Exit
pub mod Manager
mod Examples

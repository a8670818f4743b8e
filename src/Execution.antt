-- ===== src/Execution.antt =====
-- new/src/execution: what may send an order, and what stops it.
pub mod KillSwitch
pub mod Gateway
mod Examples
mod TicksExamples

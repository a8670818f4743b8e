-- ===== src/Execution/Gateway.antt =====
-- new/src/execution/execution_gateway.py, part by part.
pub mod Types
pub mod Normalize
pub mod Approval
pub mod Universe
pub mod Audit
pub mod Submit
pub mod Broker
pub mod Mock
pub mod Execute
pub mod Sends
pub mod Ready
pub mod Safety
pub mod Accounting
pub mod Records
pub mod Orders
pub mod Path
pub mod Recorded
pub mod Ticks

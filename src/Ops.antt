-- ===== src/Ops.antt =====
-- new/src/ops: what keeps the pipeline in a known state.
pub mod StateMachine
pub mod SafetyGuards
pub mod JobStore
mod Examples

-- ===== src/Blackboard/MessagePool.antt =====
-- new/src/blackboard/message_pool.py, operation by operation.
pub mod Types
pub mod Validate
pub mod Expire
pub mod Dependency
pub mod Publish
pub mod Operations
pub mod Index
pub mod Invariant
pub mod Steps
pub mod Expiry
pub mod Outcomes
pub mod Acks

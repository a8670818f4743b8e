-- ===== src/Blackboard.antt =====
-- new/src/blackboard: the messages that the agents exchange.
pub mod MessagePool
mod Examples

-- ===== src/Portfolio.antt =====
-- new/src/portfolio/portfolio_manager.py: from the weights that are aimed at to the orders.
pub mod Types
pub mod Targets
pub mod Orders
pub mod Plan
pub mod Safety
pub mod Names
pub mod Accepted
mod Examples

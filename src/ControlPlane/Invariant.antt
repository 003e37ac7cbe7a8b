-- ===== src/ControlPlane/Invariant.antt =====
-- What holds of the database between two requests, and how each statement keeps it.
pub mod Books
pub mod Statements
pub mod Balances
pub mod Movements
pub mod Settlement
pub mod Inserts
pub mod Ticker
pub mod Agents
pub mod Tenants
pub use Books.*

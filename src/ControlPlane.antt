-- ===== src/ControlPlane.antt =====
-- The control plane, crates/control-plane: an offer index, a ledger of satoshis held for tenants
-- and hosts, and a queue of commands.
pub mod Error
pub mod Db
pub mod State
pub mod Lightning
pub mod Codec
pub mod Billing
pub mod Routes
pub mod Invariant
pub mod Settling
pub mod Races
pub mod Delivery
pub mod Queues
pub mod Admission
pub mod Registration
pub mod Exclusion
pub mod Evictions
pub mod Deposits
pub mod Completion
pub mod Listing
pub mod MockPayments
pub mod System
pub mod Interleaving
pub mod Tests

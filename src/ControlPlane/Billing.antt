-- ===== src/ControlPlane/Billing.antt =====
-- crates/control-plane/src/billing.rs: the ticker. It settles invoices, marks silent hosts offline,
-- and evicts rentals that have outrun their budget.
pub mod Charge
pub mod Bounds
pub mod Ticker
unfoldable pub use Charge.*
unfoldable pub use Ticker.*

-- ===== src/ControlPlane/Routes/Tenant.antt =====
-- routes/tenant.rs: the handlers that a tenant calls.
pub mod Offers
pub mod Accounts
pub mod Create
pub mod Stop
unfoldable pub use Offers.*
unfoldable pub use Accounts.*
unfoldable pub use Create.*
unfoldable pub use Stop.*

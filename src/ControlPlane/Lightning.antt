-- ===== src/ControlPlane/Lightning.antt =====
-- crates/control-plane/src/lightning: the payment backends behind one interface.
pub mod Backend
pub mod Mock
pub mod Lnd
pub use Backend.*

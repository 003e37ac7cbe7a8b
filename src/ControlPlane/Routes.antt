-- ===== src/ControlPlane/Routes.antt =====
-- crates/control-plane/src/routes: the handlers of the agents' and of the tenants' side.
pub mod Auth
pub mod Agent
pub mod Tenant

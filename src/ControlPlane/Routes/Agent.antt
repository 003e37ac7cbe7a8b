-- ===== src/ControlPlane/Routes/Agent.antt =====
-- routes/agent.rs: the handlers that a host's agent calls.
pub mod Register
pub mod Heartbeat
pub mod Report
pub mod Payout
unfoldable pub use Register.*
unfoldable pub use Heartbeat.*
unfoldable pub use Report.*
unfoldable pub use Payout.*

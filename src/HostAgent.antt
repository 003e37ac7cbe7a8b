-- ===== src/HostAgent.antt =====
-- The agent on a host, crates/host-agent: it fetches commands with its heartbeats, runs them, and
-- reports what came of them.
pub mod Ports
pub mod Runtime
pub mod Parse
pub mod Docker
pub mod Metal
pub mod Worker
pub mod Benchmark
pub mod Dispatch
pub mod Agent
pub mod Lifecycle
mod Tests

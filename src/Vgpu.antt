-- ===== src/Vgpu.antt =====
-- The tenant's command line, crates/vgpu/src/main.rs: the requests that it sends, and what it prints
-- of the answers.
pub mod Client
pub mod Commands
pub mod Run
pub mod Keys
pub mod Hints
mod Tests

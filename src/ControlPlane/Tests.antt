-- ===== src/ControlPlane/Tests.antt =====
-- Runs of the handlers on one small market.
pub mod WireText
pub mod Market
mod Money
mod Histories
mod Queues
mod Renting
mod Ticks
mod Hosts

-- ===== src/Core.antt =====
-- The shared crate crates/core: amounts, domain enums and the bodies of requests and responses.
pub mod Money
pub mod Model
pub mod Api
mod Tests

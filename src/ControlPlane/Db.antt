-- ===== src/ControlPlane/Db.antt =====
-- crates/control-plane/src/db.rs and the schema of crates/control-plane/migrations: the rows, the
-- tables, the one way to write the ledger, and the statements that a constraint can refuse.
-- Row numbers count from 1. A statement's sums are exact; a failing disk or pool is left out.
pub mod Tables
pub mod Ledger
pub use Tables.*
unfoldable pub use Ledger.*

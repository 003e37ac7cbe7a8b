-- ===== src/Prelude/Table.antt =====
-- A table as the list of its rows, in the order of insertion, and the SQL statements over it.
mod Keys
mod Sums
mod Hits
mod Counts
unfoldable pub use Keys.*
unfoldable pub use Sums.*
pub use Hits.*
unfoldable pub use Counts.*

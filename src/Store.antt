-- ===== src/Store.antt =====
-- The queue database, its write transactions and its tables.
mod Defs
mod Table
mod Kept
mod Keys
unfoldable pub use Defs.*
unfoldable pub use Table.*
pub use Kept.*
pub use Keys.*

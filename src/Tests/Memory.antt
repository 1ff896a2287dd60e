-- ===== src/Tests/Memory.antt =====
-- Tables in memory, as databases that always answer.
mod Rows
mod Laws
mod Samples
mod Bulk
unfoldable pub use Rows.*
unfoldable pub use Laws.*
unfoldable pub use Samples.*
pub use Bulk.*

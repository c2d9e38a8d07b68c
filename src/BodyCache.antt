-- ===== src/BodyCache.antt =====
-- The cache of message bodies, crates/bridge/src/body_cache.rs.
mod Defs
pub mod Order
pub mod Entries
pub mod Budget
pub mod Tests
unfoldable pub use Defs.*

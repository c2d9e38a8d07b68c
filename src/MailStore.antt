-- ===== src/MailStore.antt =====
-- The in-memory store `MailStore` of crates/bridge/src/sync.rs.
mod Defs
mod Ops
pub mod Lookup
pub mod Numbering
unfoldable pub use Defs.*
unfoldable pub use Ops.*

-- ===== src/Wire.antt =====
-- The text of IMAP lines (the functions at the end of crates/bridge/src/imap/session.rs).
mod Strings
mod Args
pub mod Reading
pub mod Items
pub mod Tests
unfoldable pub use Strings.*
unfoldable pub use Args.*

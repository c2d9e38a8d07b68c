-- ===== src/Utf7.antt =====
-- Modified UTF-7 for the names of mailboxes, crates/bridge/src/imap/utf7.rs.
mod Codec
pub mod RoundTrip
pub mod Tests
unfoldable pub use Codec.*

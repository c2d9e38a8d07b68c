-- ===== src/EntryId.antt =====
-- The ids of mail set entries, crates/tuta/src/mail_set_entry_id.rs.
mod Codec
pub mod RoundTrip
pub mod Tests
unfoldable pub use Codec.*

-- ===== src/Smtp.antt =====
-- The SMTP server, crates/bridge/src/smtp/mod.rs.
mod Lines
mod Words
mod Server
pub mod Chunks
pub mod Gate
pub mod Body
pub mod Recipients
pub mod Tests
unfoldable pub use Lines.*
unfoldable pub use Words.*
unfoldable pub use Server.*

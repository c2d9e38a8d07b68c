-- ===== src/Session.antt =====
-- A client's session, crates/bridge/src/imap/session.rs.
mod State
mod Sets
mod Commands
mod Removal
mod Dispatch
mod Find
pub mod Response
pub mod Fetch
pub mod Append
pub mod Copies
pub mod Answers
pub mod FetchTests
pub mod Expunges
pub mod News
pub mod Addressed
pub mod Guard
pub mod Gate
pub mod Opening
pub mod Found
pub mod Tests
unfoldable pub use State.*
unfoldable pub use Sets.*
unfoldable pub use Commands.*
unfoldable pub use Removal.*
unfoldable pub use Dispatch.*
unfoldable pub use Find.*

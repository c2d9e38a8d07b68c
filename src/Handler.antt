-- ===== src/Handler.antt =====
-- The realtime event handler, crates/bridge/src/event_handler.rs.
mod Events
mod Create
mod Batch
pub mod Numbering
pub mod Uids
pub mod Order
pub mod Move
pub mod Inline
pub mod Restart
pub mod Tests
unfoldable pub use Events.*
unfoldable pub use Create.*
unfoldable pub use Batch.*

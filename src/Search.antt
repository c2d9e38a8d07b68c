-- ===== src/Search.antt =====
-- SEARCH, crates/bridge/src/imap/search.rs. The changes of case are those of the standard library.
mod Keys
mod Dates
mod Tokens
mod Parse
mod Match
pub mod Calendar
pub mod Shrinks
pub mod Fuel
pub mod Queries
pub mod Terms
pub mod Tests
unfoldable pub use Keys.*
unfoldable pub use Dates.*
unfoldable pub use Tokens.*
unfoldable pub use Parse.*
unfoldable pub use Match.*

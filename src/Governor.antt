-- ===== src/Governor.antt =====
-- The rate governor of crates/bridge/src/governed_client.rs, through which every request to the
-- server goes. Times are milliseconds; `Instant::now` is the clock of the state.
mod Backoff
mod Gate
pub mod Delays
pub mod Safety
pub mod Tests
unfoldable pub use Backoff.*
unfoldable pub use Gate.*

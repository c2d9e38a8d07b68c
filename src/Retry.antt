-- ===== src/Retry.antt =====
-- When the bridge tries again: the supervisor's policy (src/service/policy.rs), and the retries of
-- the syncer (crates/bridge/src/sync.rs). Times are milliseconds.
mod Service
mod Syncer
pub mod Laws
unfoldable pub use Service.*
unfoldable pub use Syncer.*

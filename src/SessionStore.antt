-- ===== src/SessionStore.antt =====
-- The saved session of crates/bridge/src/session_store/.
pub mod Errors
pub mod Codec
pub mod State
pub mod Store
pub mod Protected
pub mod Corrupt
pub mod RoundTrip
pub mod Backends
pub mod Tests

-- ===== src/Cache.antt =====
-- The on-disk cache `LocalStore` of crates/bridge/src/store.rs: the tables of its database, each
-- SQL statement as a function on them, and the encrypted message files.
mod Tables
mod Rows
mod Files
pub mod Uids
pub mod Keys
unfoldable pub use Tables.*
unfoldable pub use Rows.*
unfoldable pub use Files.*

-- ===== src/Sync.antt =====
-- How a folder is listed and reloaded (crates/bridge/src/sync.rs).
mod Folder
unfoldable pub use Folder.*

-- ===== src/FolderTree.antt =====
-- The folder tree, crates/tuta/src/folder_system.rs.
mod Defs
pub mod Build
pub mod Paths
unfoldable pub use Defs.*

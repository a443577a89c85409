-- ===== src/Update.antt =====
-- The update check: client/internal/update.
pub mod Version
pub mod Order
pub mod Release
pub mod Manifest
pub mod Sums
pub mod Github
pub mod Latest
pub mod Assets
pub mod Pinned
pub mod Repository
pub mod Trust
pub mod Download
pub mod Kept

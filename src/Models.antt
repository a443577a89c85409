-- ===== src/Models.antt =====
-- The speech models: client/internal/models.
pub mod Catalogue
pub mod Install
pub mod Staged
pub mod Whole
pub mod Scan
pub mod Found
pub mod Single

-- ===== src/Window.antt =====
-- The window: client/internal/ui, without the looks of its widgets.
pub mod Form
pub mod Collected
pub mod Apply
pub mod Updating
pub mod Models
pub mod Main
pub mod Disabled

-- ===== src/Hotkey.antt =====
-- The global shortcut: client/internal/hotkey.
pub mod Keys
pub mod Manager
pub mod Single

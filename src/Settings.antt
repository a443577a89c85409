-- ===== src/Settings.antt =====
-- The settings file: client/internal/config, and the backends it names, client/internal/localserver.
pub mod Saving
pub mod Backend
pub mod Gain
pub mod Config
pub mod Validate
pub mod Validity
pub mod Loading

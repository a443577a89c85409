-- ===== src/Session.antt =====
-- One dictation session from the shortcut to the last text: client/internal/session.
pub mod Phase
pub mod Controller
pub mod Quiet
pub mod Rest
pub mod Outcome
pub mod Lost
pub mod Ended
pub mod Closing

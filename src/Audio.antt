-- ===== src/Audio.antt =====
-- Capture: client/internal/audio.
pub mod Gain
pub mod Samples
pub mod Range

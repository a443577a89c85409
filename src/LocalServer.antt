-- ===== src/LocalServer.antt =====
-- The servers that the client starts on this machine: client/internal/localserver.
pub mod Folder
pub mod Manager
pub mod Current
pub mod Log
pub mod Waiting
pub mod Detector
pub mod Starting
pub mod Stopping
pub mod Python

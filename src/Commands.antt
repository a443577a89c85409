-- ===== src/Commands.antt =====
-- The commands: client/cmd.
pub mod Sign
pub mod Published
pub mod Check

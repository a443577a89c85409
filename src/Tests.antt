-- ===== src/Tests.antt =====
-- Concrete inputs: a keyboard that can be made to fail, and runs of the components on it.
mod Desk
mod Input
mod Session
mod Settings
mod Update
mod Download
mod LocalServer
mod Transport
mod Github
mod Models
mod Waiting
mod Hotkey
mod Dial
mod Sign
mod Window
mod Singleton
mod Check
mod Main
mod Saving

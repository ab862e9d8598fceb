-- ===== src/EndToEnd.antt =====
-- The client and the server together.
pub mod Effects
pub mod Commands
pub mod Blocking
pub mod Collected

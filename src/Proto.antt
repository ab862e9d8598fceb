-- ===== src/Proto.antt =====
-- internal/proto: the command types and the messages, as the generated Go code has them.
pub mod Types
pub mod Messages

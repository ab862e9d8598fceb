-- ===== src/Store.antt =====
-- internal/server/store: the persistence layer.
pub mod Sql
pub mod Engine
pub mod Json
pub mod Terminals
pub mod Commands
pub mod Hardware

-- ===== src/Client.antt =====
-- internal/client: the agent that runs on a terminal.
pub mod Agent
pub mod Cache
pub mod Executor
pub mod Backoff
pub mod Session
pub mod Identity
pub mod Collector

-- ===== src/Server.antt =====
-- internal/server: the session registry, the RPC handlers and the goroutines of a channel.
pub mod Connection
pub mod Service
pub mod Dispatch
pub mod Registration
pub mod Queue
pub mod Sending
pub mod Lifecycle
pub mod Heartbeats
pub mod Steps

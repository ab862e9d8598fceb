-- ===== src/Admin.antt =====
-- cmd/admin: the console of the administrator.
pub mod Gateway
pub mod Format

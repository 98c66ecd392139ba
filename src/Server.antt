-- ===== src/Server.antt =====
-- The start of the server and what main wraps around its handlers: cmd/pingclaw-server/main.go.
pub mod Queries
pub mod Wait
pub mod Settings
pub mod Cors
pub mod Address

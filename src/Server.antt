-- ===== src/Server.antt =====
-- server/server.go: the replicated key-value server.
pub mod Types
pub mod Completion
pub mod Apply
pub mod Requests
pub mod Rpc
pub mod Addresses
pub mod Config

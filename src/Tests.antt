-- ===== src/Tests.antt =====
-- Small runs of the program.
pub mod Cluster
pub mod TwoLeaders
pub mod Clients
pub mod Rpcs
pub mod Consensus
pub mod Storage
pub mod Database
pub mod Recovery
pub mod Merging
pub mod Service
pub mod Startup

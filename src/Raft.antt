-- ===== src/Raft.antt =====
-- raft/: the consensus node.
pub mod Types
pub mod Node
mod Indexed
pub mod Prefix
pub mod Vote
pub mod Append
pub mod Commit
pub mod Election
pub mod Replication
pub mod Run
pub mod Wire
pub mod Cluster

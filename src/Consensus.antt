-- ===== src/Consensus.antt =====
-- internal/consensus: the replicated log and the Raft node.
pub mod Log
pub mod State
pub mod Node
pub mod Activity
pub mod Snapshot
pub mod Replication
pub mod Ballot
pub mod Durable
pub mod Alone
pub mod Member
pub mod Election
pub mod Commitment

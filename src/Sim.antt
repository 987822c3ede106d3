-- ===== src/Sim.antt =====
-- internal/sim: a cluster on a network whose links break.
pub mod Network
pub mod Cluster
pub mod Gateway
pub mod Detour
pub mod Faults
pub mod Leaders
pub mod Display
pub mod Keeps
pub mod Ledger
pub mod Conversation
pub mod Roster
pub mod Reach

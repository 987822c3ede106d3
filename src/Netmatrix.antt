-- ===== src/Netmatrix.antt =====
-- internal/netmatrix: the directed reachability matrix that each node believes in.
pub mod View
pub mod Edges
pub mod Routes
pub mod Asymmetry

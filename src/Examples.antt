-- ===== src/Examples.antt =====
-- Concrete inputs at which the theorems about internal/ apply, and runs of the code at them.
mod Toy
mod Crypt
mod Netmatrix
mod Log
mod Replica
mod Delivery
mod Clock
mod Fabric
mod CatchUp
mod Ballots
mod Page
mod Frames
mod Committed
mod Alone

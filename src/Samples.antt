-- ===== src/Samples.antt =====
-- Runs of the code on small inputs, and each theorem at one of them.
pub mod Pools
pub mod Rest
pub mod Batches
pub mod Hosts
pub mod Provision
pub mod Trees
pub mod Backend
pub mod Channels

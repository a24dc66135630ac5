-- ===== src/Sync.antt =====
-- src/sync: the synchronisation of configurations between the instances of a cluster.
pub mod Merge
pub mod Protocol
pub mod Coordinator

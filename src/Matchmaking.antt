-- ===== src/Matchmaking.antt =====
-- packages/shulker-addon-matchmaking: the matchmaking addon.
pub mod Extensions
pub mod Utils
pub mod Samples
pub mod Batch
pub mod Registry
pub mod Queues
pub mod Director
pub mod Runner
pub mod Reconciler

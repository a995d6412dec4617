-- ===== src/Operator.antt =====
-- packages/shulker-operator: the operator.
pub mod Resources
pub mod Summon
pub mod Allocation
pub mod BuildError
pub mod Cluster
pub mod Pods
pub mod ProxyFleet
pub mod MinecraftServer
pub mod ServerFleet
pub mod Reconcile
pub mod Fixtures

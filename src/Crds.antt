-- ===== src/Crds.antt =====
-- packages/shulker-crds: the resources of the operator.
pub mod Condition
pub mod Schemas
pub mod MinecraftCluster
pub mod ProxyFleet
pub mod MinecraftServer
pub mod MinecraftServerFleet

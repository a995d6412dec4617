-- ===== src/Operator/Resources.antt =====
-- packages/shulker-operator/src/resources: what the operator downloads into its servers.
pub mod Maven
pub mod ResourceRef
pub mod Resolver

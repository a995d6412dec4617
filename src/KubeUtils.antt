-- ===== src/KubeUtils.antt =====
-- packages/shulker-kube-utils: what the controllers share.
pub mod Builder
pub mod LeaseData
pub mod Lease
pub mod Status

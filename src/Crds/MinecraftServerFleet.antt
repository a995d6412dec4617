-- ===== src/Crds/MinecraftServerFleet.antt =====
-- packages/shulker-crds/src/v1alpha1/minecraft_server_fleet.rs: the specification of a fleet of
-- servers.
use shulker.Prelude.{ℕ, Option}
use shulker.Kubernetes.{Resource}
use shulker.Crds.Schemas.{TemplateSpec, FleetAutoscalingSpec}
use shulker.Crds.MinecraftCluster.{MinecraftClusterRef}
use shulker.Crds.MinecraftServer.{MinecraftServerSpec}

pub record MinecraftServerFleetSpec : Type 0 where
  pub cluster_ref : MinecraftClusterRef
  pub replicas : ℕ
  pub template : TemplateSpec MinecraftServerSpec
  pub autoscaling : Option FleetAutoscalingSpec

abbrev pub MinecraftServerFleet : Type 0
MinecraftServerFleet = Resource MinecraftServerFleetSpec

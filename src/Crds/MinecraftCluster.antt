-- ===== src/Crds/MinecraftCluster.antt =====
-- packages/shulker-crds/src/v1alpha1/minecraft_cluster.rs: the specification of a cluster.
use shulker.Prelude.{ℕ, String, List, Option}
use shulker.Kubernetes.{Resource}

pub data MinecraftClusterRedisDeploymentType : Type 0 where
  managed_single_node provided : MinecraftClusterRedisDeploymentType

-- The port is a `u16`.
pub record MinecraftClusterRedisProvidedSpec : Type 0 where
  pub host : String
  pub port : ℕ
  pub credentials_secret_name : Option String

pub record MinecraftClusterRedisSpec : Type 0 where
  pub type_ : MinecraftClusterRedisDeploymentType
  pub provided : Option MinecraftClusterRedisProvidedSpec

pub record MinecraftClusterExternalServerSpec : Type 0 where
  pub name : String
  pub address : String
  pub tags : List String

pub record MinecraftClusterSpec : Type 0 where
  pub network_admins : Option (List String)
  pub redis : Option MinecraftClusterRedisSpec
  pub external_servers : Option (List MinecraftClusterExternalServerSpec)

abbrev pub MinecraftCluster : Type 0
MinecraftCluster = Resource MinecraftClusterSpec

pub record MinecraftClusterRef : Type 0 where
  pub name : String

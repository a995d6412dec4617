-- ===== src/Crds/MinecraftServer.antt =====
-- packages/shulker-crds/src/v1alpha1/minecraft_server.rs: the specification of a server.
use shulker.Prelude.{ℕ, String, Bool, List, Option}
use shulker.Prelude.Dict.{Dict}
use shulker.Kubernetes.{Resource}
use shulker.Crds.Schemas.{PodOverridesSpec}
use shulker.Crds.MinecraftCluster.{MinecraftClusterRef}
use shulker.Operator.Resources.ResourceRef.{ResourceRefSpec}

pub data MinecraftServerVersion : Type 0 where
  paper folia minestom : MinecraftServerVersion

-- `Display`.
abbrev pub channel_to_string : MinecraftServerVersion → String
channel_to_string paper = "Paper"
channel_to_string folia = "Folia"
channel_to_string minestom = "Minestom"

pub record MinecraftServerVersionSpec : Type 0 where
  pub channel : MinecraftServerVersion
  pub name : String
  pub custom_jar : Option ResourceRefSpec

pub data ProxyForwardingMode : Type 0 where
  velocity bungee_cord : ProxyForwardingMode

pub data LifecycleStrategy : Type 0 where
  allocate_when_not_empty manual : LifecycleStrategy

-- `Display`.
abbrev pub strategy_to_string : LifecycleStrategy → String
strategy_to_string allocate_when_not_empty = "AllocateWhenNotEmpty"
strategy_to_string manual = "Manual"

pub record MinecraftServerConfigurationSpec : Type 0 where
  pub existing_config_map_name : Option String
  pub world : Option ResourceRefSpec
  pub plugins : Option (List ResourceRefSpec)
  pub patches : Option (List ResourceRefSpec)
  pub max_players : ℕ
  pub disable_nether : Bool
  pub disable_end : Bool
  pub server_properties : Option (Dict String)
  pub proxy_forwarding_mode : ProxyForwardingMode
  pub lifecycle_strategy : LifecycleStrategy
  pub skip_agent_download : Bool

pub record MinecraftServerSpec : Type 0 where
  pub cluster_ref : MinecraftClusterRef
  pub tags : List String
  pub version : MinecraftServerVersionSpec
  pub config : MinecraftServerConfigurationSpec
  pub pod_overrides : Option PodOverridesSpec

abbrev pub MinecraftServer : Type 0
MinecraftServer = Resource MinecraftServerSpec

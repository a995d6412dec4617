-- ===== src/Crds/ProxyFleet.antt =====
-- packages/shulker-crds/src/v1alpha1/proxy_fleet.rs: the specification of a fleet of proxies. An
-- unsigned number is a ℕ.
use shulker.Prelude.{ℕ, String, Bool, List, Option}
use shulker.Prelude.Dict.{Dict}
use shulker.Kubernetes.{Resource}
use shulker.Crds.Schemas.{TemplateSpec, PodOverridesSpec, FleetAutoscalingSpec}
use shulker.Crds.MinecraftCluster.{MinecraftClusterRef}
use shulker.Operator.Resources.ResourceRef.{ResourceRefSpec}

pub data ProxyFleetTemplateVersion : Type 0 where
  velocity bungee_cord waterfall : ProxyFleetTemplateVersion

-- `Display`.
abbrev pub version_to_string : ProxyFleetTemplateVersion → String
version_to_string velocity = "Velocity"
version_to_string bungee_cord = "BungeeCord"
version_to_string waterfall = "Waterfall"

pub record ProxyFleetTemplateVersionSpec : Type 0 where
  pub channel : ProxyFleetTemplateVersion
  pub name : String

pub record ProxyFleetTemplateConfigurationSpec : Type 0 where
  pub existing_config_map_name : Option String
  pub plugins : Option (List ResourceRefSpec)
  pub patches : Option (List ResourceRefSpec)
  pub max_players : ℕ
  pub motd : String
  pub server_icon : String
  pub proxy_protocol : Bool
  pub ttl_seconds : ℕ
  pub players_delta_before_exclusion : ℕ
  pub skip_agent_download : Bool

pub record ProxyFleetTemplateSpec : Type 0 where
  pub version : ProxyFleetTemplateVersionSpec
  pub config : ProxyFleetTemplateConfigurationSpec
  pub pod_overrides : Option PodOverridesSpec

pub data ProxyFleetServiceType : Type 0 where
  cluster_ip node_port load_balancer : ProxyFleetServiceType

pub data ProxyFleetServiceExternalTrafficPolicy : Type 0 where
  cluster local : ProxyFleetServiceExternalTrafficPolicy

pub record ProxyFleetServiceSpec : Type 0 where
  pub type_ : ProxyFleetServiceType
  pub annotations : Option (Dict String)
  pub external_traffic_policy : Option ProxyFleetServiceExternalTrafficPolicy
  pub preferred_reconnection_address : Option String

pub record ProxyFleetSpec : Type 0 where
  pub cluster_ref : MinecraftClusterRef
  pub replicas : ℕ
  pub template : TemplateSpec ProxyFleetTemplateSpec
  pub service : Option ProxyFleetServiceSpec
  pub autoscaling : Option FleetAutoscalingSpec

abbrev pub ProxyFleet : Type 0
ProxyFleet = Resource ProxyFleetSpec

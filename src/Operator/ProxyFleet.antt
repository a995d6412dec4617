-- ===== src/Operator/ProxyFleet.antt =====
-- packages/shulker-operator/src/reconcilers/proxy_fleet: the resources of a fleet of proxies, with
-- the labels (mod.rs), the names and the paths that they share.
pub mod Env
pub mod Volumes
pub mod Fleet
pub mod Service
pub mod Config
pub mod Laws
pub mod Wiring
pub mod Scale
pub mod Reach
pub mod Examples
use shulker.Prelude.{String, [], ◌∷◌}
use shulker.Prelude.Dict.{Dict}
use shulker.Prelude.Text.{◌⧺◌}
use shulker.Crds.MinecraftCluster.{MinecraftCluster}
use shulker.Crds.ProxyFleet.{ProxyFleet}
use shulker.Operator.Resources.Resolver.{AgentConfig}

abbrev pub proxy_shulker_config_dir : String
proxy_shulker_config_dir = "/mnt/shulker/config"

abbrev pub proxy_shulker_forwarding_secret_dir : String
proxy_shulker_forwarding_secret_dir = "/mnt/shulker/forwarding-secret"

abbrev pub proxy_data_dir : String
proxy_data_dir = "/server"

abbrev pub proxy_drain_lock_dir : String
proxy_drain_lock_dir = "/mnt/drain-lock"

abbrev pub proxy_shulker_external_servers_dir : String
proxy_shulker_external_servers_dir = "/mnt/shulker/external-servers"

pub record FleetBuilderContext : Type 0 where
  pub cluster : MinecraftCluster
  pub agent_config : AgentConfig

abbrev pub get_labels : ProxyFleet → String → String → Dict String
get_labels proxy_fleet name component =
    ("app.kubernetes.io/name", name)
    ∷ ("app.kubernetes.io/instance", name ⧺ "-" ⧺ proxy_fleet.name_any)
    ∷ ("app.kubernetes.io/component", component)
    ∷ ("app.kubernetes.io/part-of", "cluster-" ⧺ proxy_fleet.spec.cluster_ref.name)
    ∷ ("app.kubernetes.io/managed-by", "shulker-operator")
    ∷ ("minecraftcluster.shulkermc.io/name", proxy_fleet.spec.cluster_ref.name)
    ∷ ("proxyfleet.shulkermc.io/name", proxy_fleet.name_any)
    ∷ []

abbrev pub fleet_name : ProxyFleet → String
fleet_name proxy_fleet = proxy_fleet.name_any

abbrev pub config_map_name : ProxyFleet → String
config_map_name proxy_fleet = proxy_fleet.name_any ⧺ "-config"

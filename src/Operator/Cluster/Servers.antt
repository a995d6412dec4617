-- ===== src/Operator/Cluster/Servers.antt =====
-- packages/shulker-operator/src/reconcilers/minecraft_cluster: the headless service of the servers
-- of a cluster (headless_service.rs) and the list of its external servers
-- (external_servers_config_map.rs), whose YAML is an argument.
use shulker.Prelude.{String, Bool, false, not, List, [], ◌∷◌, is_empty, Option, none, some}
use shulker.Prelude.Dict.{Dict}
use shulker.Prelude.Text.{◌⧺◌}
use shulker.Outcome.{Outcome, unwrap, ◌>>=◌}
use shulker.Kubernetes.{Object}
use shulker.Crds.MinecraftCluster.{MinecraftCluster, MinecraftClusterExternalServerSpec}
use shulker.Operator.Cluster.{resource_of}
use shulker.Operator.Cluster.Redis.{ServiceSpec}

abbrev headless_service_name : MinecraftCluster → String
headless_service_name cluster = cluster.name_any ⧺ "-cluster"

unfoldable build_headless_service : MinecraftCluster → String → Outcome (Object ServiceSpec)
build_headless_service cluster name =
    resource_of cluster name "service" "minecraft-server-headless" (record {
      selector = ("minecraftcluster.shulkermc.io/name", cluster.name_any) ∷ [];
      type_ = none;
      cluster_ip = some "None";
      ports = [];
    })

abbrev pub external_servers_name : MinecraftCluster → String
external_servers_name cluster = cluster.name_any ⧺ "-external-servers"

-- `is_some_and` of a list that is not empty.
abbrev pub has_servers : Option (List MinecraftClusterExternalServerSpec) → Bool
has_servers none = false
has_servers (some list) = not (is_empty list)

abbrev pub external_servers_is_needed : MinecraftCluster → Bool
external_servers_is_needed cluster = has_servers cluster.spec.external_servers

unfoldable build_external_servers :
    (List MinecraftClusterExternalServerSpec → Option String)
    → MinecraftCluster
    → String
    → Outcome (Object (Dict String))
build_external_servers to_yaml cluster name = do
  list ← unwrap cluster.spec.external_servers
  content ← unwrap (to_yaml list)
  resource_of cluster name "external-servers" "proxy" (("external-servers.yaml", content) ∷ [])

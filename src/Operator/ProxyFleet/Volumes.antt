-- ===== src/Operator/ProxyFleet/Volumes.antt =====
-- packages/shulker-operator/src/reconcilers/proxy_fleet/fleet.rs: the volumes of a proxy, and where
-- its containers mount them.
use shulker.Prelude.{String, Bool, true, List, [], ◌∷◌, ◌++◌, Option, none, some, if◌then◌else◌}
use shulker.Prelude.Text.{◌⧺◌}
use shulker.Kubernetes.Pod.{Volume, VolumeMount, volume, mount, config_map, secret, empty_dir}
use shulker.Crds.ProxyFleet.{ProxyFleet}
use shulker.Operator.Cluster.Servers.{has_servers, external_servers_name}
use shulker.Operator.ProxyFleet.{
  FleetBuilderContext, config_map_name, proxy_shulker_config_dir,
  proxy_shulker_forwarding_secret_dir, proxy_data_dir, proxy_drain_lock_dir,
  proxy_shulker_external_servers_dir,
}

-- `unwrap_or_else`.
abbrev pub existing_or : Option String → String → String
existing_or none name = name
existing_or (some existing) name = existing

abbrev pub base_volumes : ProxyFleet → List Volume
base_volumes proxy_fleet =
    volume "shulker-config" (
      config_map (
        existing_or proxy_fleet.spec.template.spec.config.existing_config_map_name
          (config_map_name proxy_fleet)))
    ∷ volume "shulker-forwarding-secret"
        (secret (proxy_fleet.spec.cluster_ref.name ⧺ "-forwarding-secret"))
    ∷ volume "proxy-data" empty_dir
    ∷ volume "proxy-drain-lock" empty_dir
    ∷ volume "proxy-tmp" empty_dir
    ∷ []

abbrev pub external_volumes : FleetBuilderContext → Bool → List Volume
external_volumes context has_external_servers =
    if has_external_servers
    then volume "shulker-external-servers" (config_map (external_servers_name context.cluster)) ∷ []
    else []

unfoldable pub get_volumes : FleetBuilderContext → ProxyFleet → List Volume
get_volumes context proxy_fleet =
    base_volumes proxy_fleet
    ++ external_volumes context (has_servers context.cluster.spec.external_servers)

abbrev pub base_mounts : List VolumeMount
base_mounts =
    mount "shulker-forwarding-secret" proxy_shulker_forwarding_secret_dir (some true)
    ∷ mount "proxy-data" proxy_data_dir none
    ∷ mount "proxy-drain-lock" proxy_drain_lock_dir (some true)
    ∷ mount "proxy-tmp" "/tmp" none
    ∷ []

abbrev pub external_mounts : Bool → List VolumeMount
external_mounts has_external_servers =
    if has_external_servers
    then mount "shulker-external-servers" proxy_shulker_external_servers_dir (some true) ∷ []
    else []

unfoldable pub get_volume_mounts : FleetBuilderContext → ProxyFleet → List VolumeMount
get_volume_mounts context proxy_fleet =
    base_mounts ++ external_mounts (has_servers context.cluster.spec.external_servers)

-- What the container that prepares the files mounts.
abbrev pub init_volume_mounts : List VolumeMount
init_volume_mounts =
    mount "shulker-config" proxy_shulker_config_dir (some true)
    ∷ mount "proxy-data" proxy_data_dir none
    ∷ []

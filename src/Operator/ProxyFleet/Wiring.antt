-- ===== src/Operator/ProxyFleet/Wiring.antt =====
-- packages/shulker-operator/src/reconcilers: what the pods and the configuration of a proxy refer to
-- (proxy_fleet/fleet.rs, proxy_fleet/config_map.rs) is what the reconcilers build under these names.
use shulker.Prelude.{
  String, Bool, true, false, List, [], ◌∷◌, ◌++◌, Option, none, some, ◌≡◌, refl, ap, ◌∙◌, sym,
  append-nil, ◌==◌, find, map, if◌then◌else◌,
}
use shulker.Prelude.Text.{◌⧺◌}
use shulker.Kubernetes.Pod.{EnvVar, PodSpec, Volume, VolumeMount, secret, config_map, volume}
use shulker.Crds.Schemas.{PodOverridesSpec}
use shulker.Crds.ProxyFleet.{ProxyFleet, ProxyFleetTemplateConfigurationSpec, ProxyFleetServiceSpec}
use shulker.Operator.Cluster.Access.{proxy_service_account_name}
use shulker.Operator.Cluster.Secret.{forwarding_secret_name, secret_data_key}
use shulker.Operator.Cluster.Servers.{external_servers_is_needed, external_servers_name}
use shulker.Operator.Pods.{listed, override_pod}
use shulker.Operator.ProxyFleet.{FleetBuilderContext, config_map_name}
use shulker.Operator.ProxyFleet.Config.{
  disallow_proxy_connections, disallow_client_proxy_connections, velocity_from_spec,
  bungeecord_from_spec, BungeeCordServerYml, BungeeCordListenerYml,
}
use shulker.Operator.ProxyFleet.Volumes.{
  get_volumes, base_volumes, external_volumes, get_volume_mounts, existing_or,
}
use shulker.Operator.ProxyFleet.Fleet.{pod_spec_of}

abbrev volume_named : String → List Volume → Option Volume
volume_named name = find (λ (v : Volume). v.name == name)

abbrev mount_named : String → List VolumeMount → Option VolumeMount
mount_named name = find (λ (m : VolumeMount). m.name == name)

-- The volumes that overrides add.
abbrev pub added_volumes : Option PodOverridesSpec → List Volume
added_volumes none = []
added_volumes (some overrides) = elim (overrides.volumes) [ none ↦ [] | some volumes ↦ volumes ]

-- The account that overrides name.
abbrev pub named_account : Option PodOverridesSpec → Option String
named_account none = none
named_account (some overrides) = overrides.service_account_name

account_kept :
    (overrides : Option PodOverridesSpec) (pod_spec : PodSpec)
    → (override_pod overrides pod_spec).service_account_name ≡ pod_spec.service_account_name
unfolding override_pod
account_kept none pod_spec = refl
account_kept (some overrides) pod_spec = refl

volumes_added :
    (overrides : Option PodOverridesSpec) (pod_spec : PodSpec)
    → (override_pod overrides pod_spec).volumes ≡ pod_spec.volumes ++ added_volumes overrides
unfolding override_pod
volumes_added none pod_spec = sym (append-nil pod_spec.volumes)
volumes_added (some overrides) pod_spec = go overrides.volumes
  where
    go :
        (more : Option (List Volume))
        → pod_spec.volumes ++ listed (λ volumes. volumes) more
          ≡ pod_spec.volumes ++ (elim more [ none ↦ [] | some volumes ↦ volumes ])
    go none = refl
    go (some volumes) = refl

external_named :
    (context : FleetBuilderContext) (proxy_fleet : ProxyFleet) (external : Bool)
    (more : List Volume)
    → volume_named "shulker-external-servers"
        ((base_volumes proxy_fleet ++ external_volumes context external) ++ more)
      ≡ (if external
          then some (
              volume "shulker-external-servers"
                (config_map (external_servers_name context.cluster)))
          else volume_named "shulker-external-servers" more)
external_named context proxy_fleet true more = refl
external_named context proxy_fleet false more = refl

-- What the pods of a proxy are made from, overrides included.
abbrev pub IsWired : FleetBuilderContext → ProxyFleet → List EnvVar → List EnvVar → Type 0
IsWired context proxy_fleet init_env env =
    let pod_spec = pod_spec_of context proxy_fleet init_env env in
    let config = proxy_fleet.spec.template.spec.config in
    (volume_named "shulker-forwarding-secret" pod_spec.volumes
      ≡ some (volume "shulker-forwarding-secret" (secret (forwarding_secret_name context.cluster))))
    × (volume_named "shulker-external-servers" pod_spec.volumes ≡ (
        if external_servers_is_needed context.cluster
        then some
            (volume "shulker-external-servers" (config_map (external_servers_name context.cluster)))
        else volume_named "shulker-external-servers"
            (added_volumes proxy_fleet.spec.template.spec.pod_overrides)))
    × (volume_named "shulker-config" pod_spec.volumes
        ≡ some (
            volume "shulker-config" (
              config_map
                (existing_or config.existing_config_map_name (config_map_name proxy_fleet)))))
    × (pod_spec.service_account_name ≡ some (proxy_service_account_name context.cluster))

-- If the context has the cluster that the fleet refers to, and the overrides name no service account,
-- the pods of the fleet have the forwarding secret and the service account that the reconciler of the
-- cluster builds, the configuration of the fleet or the one it names, and the list of external
-- servers exactly if that reconciler needs it, unless overrides bring a volume of its name.
pub proxy_pod-IsWired :
    (context : FleetBuilderContext) (proxy_fleet : ProxyFleet) (init_env env : List EnvVar)
    → proxy_fleet.spec.cluster_ref.name ≡ context.cluster.name_any
    → named_account proxy_fleet.spec.template.spec.pod_overrides ≡ none
    → IsWired context proxy_fleet init_env env
unfolding get_volumes pod_spec_of
proxy_pod-IsWired context proxy_fleet init_env env same unnamed =
    let overrides = proxy_fleet.spec.template.spec.pod_overrides in
    let needed = external_servers_is_needed context.cluster in
    (
      ap (volume_named "shulker-forwarding-secret") (volumes_added overrides _)
          ∙ ap (λ n. some (volume "shulker-forwarding-secret" (secret (n ⧺ "-forwarding-secret"))))
              same,
      ap (volume_named "shulker-external-servers") (volumes_added overrides _)
          ∙ external_named context proxy_fleet needed (added_volumes overrides),
      ap (volume_named "shulker-config") (volumes_added overrides _),
      account_kept overrides _ ∙ ap (λ n. some ("shulker-" ⧺ n ⧺ "-proxy")) same,
    )

-- The file that the configuration of Velocity names is the key of the forwarding secret, where the
-- pod mounts it.
velocity_secret_mounted :
    (context : FleetBuilderContext) (proxy_fleet : ProxyFleet)
    → (m : VolumeMount) × (mount_named "shulker-forwarding-secret"
          (get_volume_mounts context proxy_fleet)
        ≡ some m)
      × ((velocity_from_spec proxy_fleet.spec.template.spec.config
            proxy_fleet.spec.service).forwarding_secret_file
          ≡ m.mount_path ⧺ "/" ⧺ secret_data_key)
unfolding get_volume_mounts velocity_from_spec
velocity_secret_mounted context proxy_fleet = (_, refl, refl)

disallow_agree :
    (service : Option ProxyFleetServiceSpec)
    → disallow_proxy_connections service ≡ disallow_client_proxy_connections service
unfolding disallow_proxy_connections disallow_client_proxy_connections
disallow_agree none = refl
disallow_agree (some spec) = refl

-- The configurations of the two kinds of proxies agree: in what players see, in the fallback
-- servers, in the proxy protocol, and in whether connections through other proxies are refused.
pub proxy_configs_agree :
    (spec : ProxyFleetTemplateConfigurationSpec) (service : Option ProxyFleetServiceSpec)
    → (listener : BungeeCordListenerYml) × ((bungeecord_from_spec spec service).listeners
        ≡ listener ∷ [])
      × (listener.host ≡ (velocity_from_spec spec service).bind)
      × (listener.motd ≡ (velocity_from_spec spec service).motd)
      × (listener.max_players ≡ (velocity_from_spec spec service).show_max_players)
      × (listener.proxy_protocol ≡ (velocity_from_spec spec service).advanced.haproxy_protocol)
      × (listener.priorities ≡ (velocity_from_spec spec service).servers.try_)
      × (map
            (λ (e : String × BungeeCordServerYml). e.1.address)
            (bungeecord_from_spec spec service).servers
          ≡ (velocity_from_spec spec service).servers.lobby
            ∷ (velocity_from_spec spec service).servers.limbo
            ∷ [])
      × ((bungeecord_from_spec spec service).prevent_proxy_connections
          ≡ (velocity_from_spec spec service).prevent_client_proxy_connections)
unfolding bungeecord_from_spec velocity_from_spec
proxy_configs_agree spec service =
    (_, refl, refl, refl, refl, refl, refl, refl, disallow_agree service)

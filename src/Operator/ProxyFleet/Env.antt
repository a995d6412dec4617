-- ===== src/Operator/ProxyFleet/Env.antt =====
-- packages/shulker-operator/src/reconcilers/proxy_fleet/fleet.rs: the environment of the containers
-- of a proxy. How an address is printed is an argument.
use shulker.Prelude.{String, Bool, true, false, List, [], ◌∷◌, ◌++◌}
use shulker.Prelude.Text.{join, show_u32, show_bool}
use shulker.Outcome.{Outcome, ok}
use shulker.Fallible.{and_then}
use shulker.Result.{Result, ◌>>=◌}
use shulker.Kubernetes.Pod.{EnvVar, env_value}
use shulker.Crds.ProxyFleet.{
  ProxyFleet, ProxyFleetTemplateVersion, velocity, bungee_cord, waterfall, version_to_string,
  ProxyFleetServiceSpec,
}
use shulker.Operator.BuildError.{BuildError}
use shulker.Operator.Resources.Resolver.{Surroundings, AgentSide, get_agent_plugin_url}
use shulker.Operator.Cluster.Redis.{RedisRef, from_cluster}
use shulker.Operator.Pods.{
  listed, option_bind, env_overrides, redis_credentials, or_unresolved, resolve_listed, plugins_env,
  patches_env,
}
use shulker.Operator.ProxyFleet.{FleetBuilderContext, proxy_shulker_config_dir, proxy_data_dir}

abbrev agent_platform : ProxyFleetTemplateVersion → String
agent_platform velocity = "velocity"
agent_platform bungee_cord = "bungeecord"
agent_platform waterfall = "bungeecord"

abbrev get_type_from_version_channel : ProxyFleetTemplateVersion → String
get_type_from_version_channel velocity = "VELOCITY"
get_type_from_version_channel bungee_cord = "BUNGEECORD"
get_type_from_version_channel waterfall = "WATERFALL"

abbrev get_version_env_from_version_channel : ProxyFleetTemplateVersion → String
get_version_env_from_version_channel velocity = "VELOCITY_BUILD_ID"
get_version_env_from_version_channel bungee_cord = "BUNGEE_JOB_ID"
get_version_env_from_version_channel waterfall = "WATERFALL_BUILD_ID"

abbrev pub base_env : FleetBuilderContext → ProxyFleet → RedisRef → List EnvVar
base_env context proxy_fleet redis_ref =
    let spec = proxy_fleet.spec.template.spec in
    env_value "SHULKER_CLUSTER_NAME" context.cluster.name_any
    ∷ env_value "SHULKER_OWNING_FLEET_NAME" proxy_fleet.name_any
    ∷ env_value "SHULKER_REDIS_HOST" redis_ref.host
    ∷ env_value "SHULKER_REDIS_PORT" (show_u32 redis_ref.port)
    ∷ env_value "SHULKER_PROXY_TTL_SECONDS" (show_u32 spec.config.ttl_seconds)
    ∷ env_value "SHULKER_PROXY_PLAYER_DELTA_BEFORE_EXCLUSION"
        (show_u32 spec.config.players_delta_before_exclusion)
    ∷ env_value "TYPE" (get_type_from_version_channel spec.version.channel)
    ∷ env_value (get_version_env_from_version_channel spec.version.channel) spec.version.name
    ∷ env_value "HEALTH_USE_PROXY" (show_bool spec.config.proxy_protocol)
    ∷ []

abbrev pub all_env : FleetBuilderContext → ProxyFleet → RedisRef → List EnvVar
all_env context proxy_fleet redis_ref =
    base_env context proxy_fleet redis_ref
    ++ listed (λ admins. env_value "SHULKER_NETWORK_ADMINS" (join "," admins) ∷ [])
        context.cluster.spec.network_admins
    ++ listed (λ address. env_value "SHULKER_PROXY_PREFERRED_RECONNECT_ADDRESS" address ∷ [])
        (option_bind (λ (s : ProxyFleetServiceSpec). s.preferred_reconnection_address)
          proxy_fleet.spec.service)
    ++ redis_credentials redis_ref.credentials_secret_name
    ++ env_overrides proxy_fleet.spec.template.spec.pod_overrides

unfoldable pub get_env : FleetBuilderContext → ProxyFleet → Result BuildError (List EnvVar)
get_env context proxy_fleet = do
  redis_ref ← from_cluster context.cluster
  Result.ok (all_env context proxy_fleet redis_ref)

module _ {Bytes Url : Type 0} (around : Surroundings Bytes Url) (show_url : Url → String) where
  agent_urls :
      Bool
      → ProxyFleetTemplateVersion
      → FleetBuilderContext
      → Outcome (Result BuildError (List Url))
  agent_urls true channel context = ok (Result.ok [])
  agent_urls false channel context =
      and_then
        (or_unresolved (
          get_agent_plugin_url around context.agent_config AgentSide.proxy
            (agent_platform channel)))
        (λ url. ok (Result.ok (url ∷ [])))

  unfoldable pub get_plugin_urls :
      FleetBuilderContext → ProxyFleet → Outcome (Result BuildError (List Url))
  unfolding agent_urls
  get_plugin_urls context proxy_fleet =
      let spec = proxy_fleet.spec.template.spec in
      and_then (agent_urls spec.config.skip_agent_download spec.version.channel context) (λ agents.
        and_then (resolve_listed around show_url proxy_fleet.namespace spec.config.plugins)
          (λ plugins. ok (Result.ok (agents ++ plugins))))

  abbrev pub base_init_env : ProxyFleet → List EnvVar
  base_init_env proxy_fleet =
      env_value "SHULKER_CONFIG_DIR" proxy_shulker_config_dir
      ∷ env_value "SHULKER_PROXY_DATA_DIR" proxy_data_dir
      ∷ env_value "SHULKER_VERSION_CHANNEL"
          (version_to_string proxy_fleet.spec.template.spec.version.channel)
      ∷ []

  unfoldable pub get_init_env :
      FleetBuilderContext → ProxyFleet → Outcome (Result BuildError (List EnvVar))
  unfolding get_plugin_urls
  get_init_env context proxy_fleet =
      let patches = proxy_fleet.spec.template.spec.config.patches in
      and_then (get_plugin_urls context proxy_fleet) (λ plugin_urls.
        and_then (resolve_listed around show_url proxy_fleet.namespace patches) (λ patch_urls. ok (
          Result.ok (
            base_init_env proxy_fleet
            ++ plugins_env around show_url "SHULKER_PROXY_PLUGIN_URLS" plugin_urls
            ++ patches_env around show_url "SHULKER_PROXY_PATCH_URLS" patches patch_urls))))

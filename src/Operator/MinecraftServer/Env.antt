-- ===== src/Operator/MinecraftServer/Env.antt =====
-- packages/shulker-operator/src/reconcilers/minecraft_server/gameserver.rs: the environment of the
-- containers of a server. How an address is printed is an argument.
use shulker.Prelude.{String, Bool, true, false, List, [], ◌∷◌, ◌++◌, Option, none, some}
use shulker.Prelude.Text.{◌⧺◌, join, show_u32}
use shulker.Outcome.{Outcome, ok, panicked}
use shulker.Fallible.{and_then}
use shulker.Result.{Result}
use shulker.Kubernetes.Pod.{EnvVar, env_value, env_secret}
use shulker.Crds.MinecraftServer.{
  MinecraftServer, MinecraftServerVersion, paper, folia, minestom, channel_to_string,
  strategy_to_string,
}
use shulker.Crds.MinecraftServerFleet.{MinecraftServerFleet}
use shulker.Operator.BuildError.{BuildError}
use shulker.Operator.Resources.ResourceRef.{ResourceRefError, ResourceRefSpec, as_url}
use shulker.Operator.Resources.Resolver.{Surroundings, AgentSide, get_agent_plugin_url, resolve}
use shulker.Operator.Cluster.Redis.{RedisRef, from_cluster}
use shulker.Operator.Pods.{
  listed, env_overrides, redis_credentials, or_unresolved, resolve_listed, plugins_env, patches_env,
}
use shulker.Operator.MinecraftServer.{
  GameServerBuilderContext, minecraft_server_shulker_config_dir, minecraft_server_config_dir,
  minecraft_server_data_dir,
}

abbrev agent_platform : MinecraftServerVersion → Option String
agent_platform paper = some "paper"
agent_platform folia = some "paper"
agent_platform minestom = none

abbrev get_type_from_version_channel : MinecraftServerVersion → String
get_type_from_version_channel paper = "PAPER"
get_type_from_version_channel minestom = "PAPER"
get_type_from_version_channel folia = "FOLIA"

abbrev get_version_env_from_version_channel : MinecraftServerVersion → String
get_version_env_from_version_channel channel = "VERSION"

abbrev default_rcon_password : String
default_rcon_password = "shulker-internal-rcon"

-- `unwrap_or_else` over the variable of the operator.
abbrev pub get_rcon_password : Option String → String
get_rcon_password none = default_rcon_password
get_rcon_password (some password) = password

abbrev joined_or_empty : Option (List String) → String
joined_or_empty none = ""
joined_or_empty (some admins) = join "," admins

abbrev pub base_env : GameServerBuilderContext → MinecraftServer → RedisRef → List EnvVar
base_env context minecraft_server redis_ref =
    let spec = minecraft_server.spec in
    env_value "SHULKER_CLUSTER_NAME" context.cluster.name_any
    ∷ env_value "SHULKER_REDIS_HOST" redis_ref.host
    ∷ env_value "SHULKER_REDIS_PORT" (show_u32 redis_ref.port)
    ∷ env_value "SHULKER_NETWORK_ADMINS" (joined_or_empty context.cluster.spec.network_admins)
    ∷ env_value "SHULKER_SERVER_LIFECYCLE_STRATEGY"
        (strategy_to_string spec.config.lifecycle_strategy)
    ∷ env_value "EULA" "TRUE"
    ∷ env_value "COPY_CONFIG_DEST" minecraft_server_data_dir
    ∷ env_value "SYNC_SKIP_NEWER_IN_DESTINATION" "true"
    ∷ env_value "SKIP_SERVER_PROPERTIES" "true"
    ∷ env_value "REPLACE_ENV_IN_PLACE" "true"
    ∷ env_value "REPLACE_ENV_VARIABLE_PREFIX" "CFG_"
    ∷ env_secret "CFG_VELOCITY_FORWARDING_SECRET" (spec.cluster_ref.name ⧺ "-forwarding-secret")
        "key"
    ∷ env_value "CFG_RCON_PASSWORD" (get_rcon_password context.rcon_password_variable)
    ∷ env_value "RCON_PASSWORD" (get_rcon_password context.rcon_password_variable)
    ∷ env_value "MEMORY" ""
    ∷ env_value "JVM_XX_OPTS" "-XX:MaxRAMPercentage=75"
    ∷ []

abbrev pub owner_env : Option MinecraftServerFleet → List EnvVar
owner_env =
    listed
      (λ (fleet : MinecraftServerFleet). env_value "SHULKER_OWNING_FLEET_NAME" fleet.name_any ∷ [])

module _ {Bytes Url : Type 0} (around : Surroundings Bytes Url) (show_url : Url → String) where
  resolve_ref : Option String → ResourceRefSpec → Outcome (Result ResourceRefError Url)
  resolve_ref none spec = panicked
  resolve_ref (some ns) spec = and_then (resolve around ns spec) (as_url around.urls)

  -- The address of one reference, in the namespace of the owner.
  unfoldable pub resolve_one : Option String → ResourceRefSpec → Outcome (Result BuildError Url)
  unfolding resolve_ref
  resolve_one namespace spec = or_unresolved (resolve_ref namespace spec)

  unfoldable pub agent_urls :
      Bool → Option String → GameServerBuilderContext → Outcome (Result BuildError (List Url))
  agent_urls true platform context = ok (Result.ok [])
  agent_urls false none context = ok (Result.ok [])
  agent_urls false (some platform) context =
      and_then
        (or_unresolved (get_agent_plugin_url around context.agent_config AgentSide.server platform))
        (λ url. ok (Result.ok (url ∷ [])))

  unfoldable pub get_plugin_urls :
      GameServerBuilderContext → MinecraftServer → Outcome (Result BuildError (List Url))
  unfolding agent_urls
  get_plugin_urls context minecraft_server =
      let spec = minecraft_server.spec in
      and_then
        (agent_urls spec.config.skip_agent_download (agent_platform spec.version.channel) context)
        (λ agents.
          and_then (resolve_listed around show_url minecraft_server.namespace spec.config.plugins)
            (λ plugins. ok (Result.ok (agents ++ plugins))))

  abbrev pub base_init_env : MinecraftServer → List EnvVar
  base_init_env minecraft_server =
      env_value "SHULKER_CONFIG_DIR" minecraft_server_shulker_config_dir
      ∷ env_value "SHULKER_SERVER_CONFIG_DIR" minecraft_server_config_dir
      ∷ env_value "SHULKER_SERVER_DATA_DIR" minecraft_server_data_dir
      ∷ env_value "SHULKER_VERSION_CHANNEL"
          (channel_to_string minecraft_server.spec.version.channel)
      ∷ []

  unfoldable pub world_env :
      Option String → Option ResourceRefSpec → Outcome (Result BuildError (List EnvVar))
  unfolding resolve_one
  world_env namespace none = ok (Result.ok [])
  world_env namespace (some world) =
      and_then (resolve_one namespace world)
        (λ url. ok (Result.ok (env_value "SHULKER_SERVER_WORLD_URL" (show_url url) ∷ [])))

  unfoldable pub get_init_env :
      GameServerBuilderContext → MinecraftServer → Outcome (Result BuildError (List EnvVar))
  unfolding get_plugin_urls world_env
  get_init_env context minecraft_server =
      let config = minecraft_server.spec.config in
      let namespace = minecraft_server.namespace in
      and_then (get_plugin_urls context minecraft_server) (λ plugin_urls.
        and_then (world_env namespace config.world) (λ world.
          and_then (resolve_listed around show_url namespace config.patches) (λ patch_urls. ok (
            Result.ok (
              base_init_env minecraft_server
              ++ world
              ++ plugins_env around show_url "SHULKER_SERVER_PLUGIN_URLS" plugin_urls
              ++ patches_env around show_url "SHULKER_SERVER_PATCH_URLS" config.patches
                  patch_urls)))))

  -- A version of the channel.
  abbrev pub platform_env : MinecraftServer → List EnvVar
  platform_env minecraft_server =
      let version = minecraft_server.spec.version in
      env_value "TYPE" (get_type_from_version_channel version.channel)
      ∷ env_value (get_version_env_from_version_channel version.channel) version.name
      ∷ []

  -- What the image runs: a custom archive, or a version of the channel.
  unfoldable pub version_env :
      MinecraftServer → Option ResourceRefSpec → Outcome (Result BuildError (List EnvVar))
  unfolding resolve_one
  version_env minecraft_server none = ok (Result.ok (platform_env minecraft_server))
  version_env minecraft_server (some custom_jar) =
      and_then (resolve_one minecraft_server.namespace custom_jar) (λ url.
        ok (Result.ok (env_value "TYPE" "CUSTOM" ∷ env_value "CUSTOM_SERVER" (show_url url) ∷ [])))

  unfoldable pub get_env :
      GameServerBuilderContext → MinecraftServer → Outcome (Result BuildError (List EnvVar))
  unfolding version_env
  get_env context minecraft_server =
      let spec = minecraft_server.spec in
      and_then (ok (from_cluster context.cluster)) (λ redis_ref.
        and_then (version_env minecraft_server spec.version.custom_jar) (λ version. ok (
          Result.ok (
            base_env context minecraft_server redis_ref
            ++ redis_credentials redis_ref.credentials_secret_name
            ++ owner_env context.owning_fleet
            ++ version
            ++ env_overrides spec.pod_overrides))))

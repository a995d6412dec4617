-- ===== src/Operator/ServerFleet/Laws.antt =====
-- packages/shulker-operator/src/reconcilers: a fleet of servers is built without the validation of
-- its servers (minecraft_server_fleet/fleet.rs, minecraft_server/gameserver.rs).
use shulker.Prelude.{String, Bool, true, false, [], ◌++◌, Option, none, some, ◌≡◌, refl, ap}
use shulker.Outcome.{Outcome, ok, unwrap, ◌>>=◌}
use shulker.Fallible.{and_then}
use shulker.Result.{Result}
use shulker.Kubernetes.{Object}
use shulker.KubeUtils.Builder.{BuilderReconcilerError}
use shulker.Agones.{GameServerSpec, FleetSpec}
use shulker.Crds.MinecraftServer.{MinecraftServer, minestom}
use shulker.Crds.MinecraftServerFleet.{MinecraftServerFleet}
use shulker.Operator.BuildError.{BuildError, refused}
use shulker.Operator.Resources.ResourceRef.{ResourceRefSpec}
use shulker.Operator.Resources.Resolver.{Surroundings}
use shulker.Operator.Cluster.Redis.{RedisRef, from_cluster}
use shulker.Operator.Pods.{resolve_listed, redis_credentials, env_overrides}
use shulker.Operator.ProxyFleet.Fleet.{replicas_of}
use shulker.Operator.ProxyFleet.{FleetBuilderContext}
use shulker.Operator.MinecraftServer.{GameServerBuilderContext}
use shulker.Operator.MinecraftServer.Env.{
  get_init_env, get_env, get_plugin_urls, agent_urls, version_env, world_env, base_init_env,
  base_env, owner_env, platform_env,
}
use shulker.Operator.MinecraftServer.GameServer as GameServer
use shulker.Operator.MinecraftServer.GameServer.{
  game_server_spec_of, pod_template, get_game_server_spec, get_pod_template_spec, validate_spec,
  minestom_error,
}
use shulker.Operator.ServerFleet.{build, fleet_of, fake_minecraft_server, server_context}

-- A server of Minestom without its archive, which refers to no other download.
pub record IsBare (minecraft_server : MinecraftServer) : Type 0 where
  pub on_minestom : minecraft_server.spec.version.channel ≡ minestom
  pub no_jar : minecraft_server.spec.version.custom_jar ≡ none
  pub no_plugins : minecraft_server.spec.config.plugins ≡ none
  pub no_patches : minecraft_server.spec.config.patches ≡ none
  pub no_world : minecraft_server.spec.config.world ≡ none

-- A resource is made from what was found, in the namespace of its owner.
made_from :
    (first : Outcome (Result BuildError GameServerSpec)) (owner_namespace : Option String)
    (make : String → GameServerSpec → Object FleetSpec) (spec : GameServerSpec) (namespace : String)
    → first ≡ ok (Result.ok spec)
    → owner_namespace ≡ some namespace
    → and_then first (λ s. unwrap owner_namespace >>= (λ n. ok (Result.ok (make n s))))
      ≡ ok (Result.ok (make namespace spec))
made_from first owner_namespace make spec namespace h k = rw (h, k)

module _ {Bytes Url : Type 0} (around : Surroundings Bytes Url) (show_url : Url → String) where
  no_agent :
      (skip : Bool) (context : GameServerBuilderContext)
      → agent_urls around show_url skip none context ≡ ok (Result.ok [])
  unfolding agent_urls
  no_agent true context = refl
  no_agent false context = refl

  bare_init_env :
      (context : GameServerBuilderContext) (minecraft_server : MinecraftServer)
      → IsBare minecraft_server
      → get_init_env around show_url context minecraft_server
        ≡ ok (Result.ok (base_init_env around show_url minecraft_server))
  unfolding get_init_env get_plugin_urls world_env resolve_listed
  bare_init_env context minecraft_server bare = simp (
    bare.on_minestom,
    bare.no_plugins,
    bare.no_patches,
    bare.no_world,
    no_agent minecraft_server.spec.config.skip_agent_download context,
  )

  bare_version :
      (minecraft_server : MinecraftServer) (custom_jar : Option ResourceRefSpec)
      → custom_jar ≡ none
      → version_env around show_url minecraft_server custom_jar
        ≡ version_env around show_url minecraft_server none
  bare_version minecraft_server custom_jar h = ap (version_env around show_url minecraft_server) h

  bare_env :
      (context : GameServerBuilderContext) (minecraft_server : MinecraftServer) (r : RedisRef)
      → IsBare minecraft_server
      → from_cluster context.cluster ≡ Result.ok r
      → get_env around show_url context minecraft_server
        ≡ ok (
            Result.ok (
              base_env context minecraft_server r
              ++ redis_credentials r.credentials_secret_name
              ++ owner_env context.owning_fleet
              ++ platform_env around show_url minecraft_server
              ++ env_overrides minecraft_server.spec.pod_overrides))
  unfolding get_env version_env
  bare_env context minecraft_server r bare reached =
      simp (
        reached,
        bare_version minecraft_server minecraft_server.spec.version.custom_jar bare.no_jar,
      )

  bare_game_server :
      (context : GameServerBuilderContext) (minecraft_server : MinecraftServer) (r : RedisRef)
      → IsBare minecraft_server
      → from_cluster context.cluster ≡ Result.ok r
      → (spec : GameServerSpec) × (get_game_server_spec around show_url context minecraft_server
          ≡ ok (Result.ok spec))
  unfolding get_game_server_spec get_pod_template_spec
  bare_game_server context minecraft_server r bare reached = (
    game_server_spec_of minecraft_server (
        pod_template minecraft_server (base_init_env around show_url minecraft_server) (
          base_env context minecraft_server r
          ++ redis_credentials r.credentials_secret_name
          ++ owner_env context.owning_fleet
          ++ platform_env around show_url minecraft_server
          ++ env_overrides minecraft_server.spec.pod_overrides)),
    simp (
      bare_init_env context minecraft_server bare,
      bare_env context minecraft_server r bare reached,
    ),
  )

  bare_refused :
      (context : GameServerBuilderContext) (minecraft_server : MinecraftServer) (name : String)
      → IsBare minecraft_server
      → (e : BuilderReconcilerError) × (GameServer.build around show_url minecraft_server name
            context
          ≡ ok (Result.err (refused e)))
  unfolding GameServer.build validate_spec
  bare_refused context minecraft_server name bare =
      (minestom_error, simp (bare.on_minestom, bare.no_jar))

  -- A server of Minestom without its archive is refused, but a fleet of such servers is built, as
  -- long as the Redis of its cluster is known and the servers refer to no other download.
  pub fleet_unvalidated :
      (fleet : MinecraftServerFleet) (name : String) (existing_fleet : Option (Object FleetSpec))
      (context : FleetBuilderContext) (rcon_password_variable : Option String) (namespace : String)
      (r : RedisRef)
      → IsBare (fake_minecraft_server fleet)
      → from_cluster context.cluster ≡ Result.ok r
      → fleet.namespace ≡ some namespace
      → (e : BuilderReconcilerError) × (built : Object FleetSpec) × (GameServer.build around
            show_url
            (fake_minecraft_server fleet)
            name
            (server_context fleet context rcon_password_variable)
          ≡ ok (Result.err (refused e)))
        × (build around show_url fleet name existing_fleet context rcon_password_variable
            ≡ ok (Result.ok built))
  unfolding build
  fleet_unvalidated fleet name existing_fleet context rcon_password_variable namespace r bare
        reached named =
      let server = fake_minecraft_server fleet in
      let on = server_context fleet context rcon_password_variable in
      let (e, denied) = bare_refused on server name bare in
      let (spec, given) = bare_game_server on server r bare reached in
      let replicas = replicas_of fleet.spec.autoscaling existing_fleet fleet.spec.replicas in
      (
        e,
        fleet_of fleet namespace name replicas spec,
        denied,
        made_from (get_game_server_spec around show_url on server) fleet.namespace
            (λ n s. fleet_of fleet n name replicas s) spec namespace given named,
      )

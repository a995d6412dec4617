-- ===== src/Operator/MinecraftServer/Examples.antt =====
-- The pod, the properties and the variables of a concrete server.
use shulker.Prelude.{[], ◌++◌, List, none, some, ◌≡◌, refl, inl}
use shulker.Prelude.Dict.{get}
use shulker.Kubernetes.Pod.{EnvVar, env_value}
use shulker.Crds.Schemas.{or}
use shulker.Operator.Cluster.Redis.{managed_ref, from_cluster}
use shulker.Operator.Pods.{env_overrides, redis_credentials}
use shulker.Operator.Pods.Laws.{IsWellMounted, declares, effective}
use shulker.Operator.MinecraftServer.Env.{base_env, platform_env, owner_env, get_env, version_env}
use shulker.Operator.MinecraftServer.GameServer.{pod_spec_of}
use shulker.Operator.MinecraftServer.Config.{vanilla_from_spec, given_properties}
use shulker.Operator.MinecraftServer.Laws.{
  server_pod-IsWellMounted, operator_properties, get-vanilla_from_spec,
}
use shulker.Operator.MinecraftServer.Rcon.{env_override_wins, rcon_password_agrees}
use shulker.Operator.Fixtures.{my_server, my_server_context, offline, same_text}

server_pod-IsWellMounted_example : IsWellMounted (pod_spec_of my_server [] [])
unfolding declares
server_pod-IsWellMounted_example = server_pod-IsWellMounted my_server [] [] (refl, (refl, tt))

get-vanilla_from_spec_example :
    get "max-players" (vanilla_from_spec my_server.spec.config)
    ≡ or
        (get "max-players" (operator_properties my_server.spec.config))
        (get "max-players" (given_properties my_server.spec.config.server_properties))
get-vanilla_from_spec_example = get-vanilla_from_spec my_server.spec.config "max-players"

abbrev env : List EnvVar
env =
    base_env my_server_context my_server (managed_ref my_server_context.cluster)
    ++ redis_credentials none
    ++ owner_env none
    ++ platform_env offline same_text my_server
    ++ env_overrides my_server.spec.pod_overrides

env_override_wins_example : effective "EULA" env ≡ some (env_value "EULA" "FALSE")
unfolding get_env version_env from_cluster effective
env_override_wins_example =
    env_override_wins offline same_text my_server_context my_server "EULA"
      (env_value "EULA" "FALSE") {env = env} refl refl

rcon_password_agrees_example :
    effective "RCON_PASSWORD" env ≡ some (env_value "RCON_PASSWORD" "hunter2")
unfolding get_env version_env from_cluster effective
rcon_password_agrees_example =
    rcon_password_agrees offline same_text my_server_context my_server "RCON_PASSWORD" {env = env}
      refl (inl refl) refl

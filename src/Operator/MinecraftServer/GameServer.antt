-- ===== src/Operator/MinecraftServer/GameServer.antt =====
-- packages/shulker-operator/src/reconcilers/minecraft_server/gameserver.rs: the game server of
-- Agones for a server, with its pod.
use shulker.Prelude.{String, true, false, List, [], ◌∷◌, Option, none, some}
use shulker.Prelude.Dict.{Dict, extend}
use shulker.Prelude.Text.{◌⧺◌, join}
use shulker.Outcome.{Outcome, ok, unwrap, ◌>>=◌}
use shulker.Fallible.{and_then}
use shulker.Result.{Result, map_err}
use shulker.Kubernetes.{Object}
use shulker.Kubernetes.Pod.{
  EnvVar, Container, PodSpec, PodTemplateSpec, Volume, VolumeMount, mount, volume, config_map,
  empty_dir, meta_of,
}
use shulker.KubeUtils.Builder.{BuilderReconcilerError, validation_error}
use shulker.Agones.{GameServerHealthSpec, GameServerSpec}
use shulker.Crds.MinecraftServer.{MinecraftServer, MinecraftServerVersion, paper, folia, minestom}
use shulker.Operator.BuildError.{BuildError, refused}
use shulker.Operator.Resources.ResourceRef.{ResourceRefSpec}
use shulker.Operator.Resources.Resolver.{Surroundings}
use shulker.Operator.Pods.{
  proxy_security_context, override_container, override_pod, override_health,
}
use shulker.Operator.ProxyFleet.Volumes.{existing_or}
use shulker.Operator.MinecraftServer.{
  GameServerBuilderContext, get_labels, config_map_name, minecraft_server_shulker_config_dir,
  minecraft_server_config_dir, minecraft_server_data_dir,
}
use shulker.Operator.MinecraftServer.Env.{get_env, get_init_env}

-- `std::any::type_name` of the builder.
abbrev type_name : String
type_name = "shulker_operator::reconcilers::minecraft_server::gameserver::GameServerBuilder"

abbrev pub minestom_error : BuilderReconcilerError
minestom_error =
    validation_error type_name "a Minestom-based server requires a custom JAR to be provided"

abbrev validate_version :
    MinecraftServerVersion → Option ResourceRefSpec → Result BuilderReconcilerError (Unit {0})
validate_version minestom none = Result.err minestom_error
validate_version minestom (some custom_jar) = Result.ok tt
validate_version paper custom_jar = Result.ok tt
validate_version folia custom_jar = Result.ok tt

unfoldable pub validate_spec : MinecraftServer → Result BuilderReconcilerError (Unit {0})
validate_spec minecraft_server =
    validate_version minecraft_server.spec.version.channel minecraft_server.spec.version.custom_jar

abbrev minecraft_server_image : String
minecraft_server_image = "itzg/minecraft-server:2026.7.0-java25"

abbrev pub init_container : List EnvVar → Container
init_container env = record {
  name = "init-fs";
  image = some "alpine:latest";
  command = some ("sh" ∷ (minecraft_server_shulker_config_dir ⧺ "/init-fs.sh") ∷ []);
  env = env;
  ports = [];
  resources = none;
  readiness_probe = none;
  image_pull_policy = none;
  security_context = some proxy_security_context;
  volume_mounts =
      mount "shulker-config" minecraft_server_shulker_config_dir (some true)
      ∷ mount "server-config" minecraft_server_config_dir none
      ∷ [];
}

abbrev pub server_volume_mounts : List VolumeMount
server_volume_mounts =
    mount "server-config" minecraft_server_config_dir none
    ∷ mount "server-data" minecraft_server_data_dir none
    ∷ mount "server-tmp" "/tmp" none
    ∷ []

abbrev pub server_container : List EnvVar → Container
server_container env = record {
  name = "minecraft-server";
  image = some minecraft_server_image;
  command = none;
  env = env;
  ports = record { name = some "minecraft"; container_port = 25565 } ∷ [];
  resources = none;
  readiness_probe = none;
  image_pull_policy = some "IfNotPresent";
  security_context = some proxy_security_context;
  volume_mounts = server_volume_mounts;
}

abbrev pub server_volumes : MinecraftServer → List Volume
server_volumes minecraft_server =
    volume "shulker-config" (
      config_map (
        existing_or minecraft_server.spec.config.existing_config_map_name
          (config_map_name minecraft_server)))
    ∷ volume "server-config" empty_dir
    ∷ volume "server-data" empty_dir
    ∷ volume "server-tmp" empty_dir
    ∷ []

abbrev pub base_pod_spec : MinecraftServer → Container → Container → PodSpec
base_pod_spec minecraft_server init main = record {
  init_containers = init ∷ [];
  containers = main ∷ [];
  image_pull_secrets = none;
  affinity = none;
  node_selector = none;
  tolerations = none;
  subdomain = some (minecraft_server.spec.cluster_ref.name ⧺ "-cluster");
  service_account_name = some ("shulker-" ⧺ minecraft_server.spec.cluster_ref.name ⧺ "-server");
  restart_policy = some "Never";
  volumes = server_volumes minecraft_server;
  security_context = none;
}

-- The pod under its overrides: those of its container and those of the rest.
unfoldable pub pod_spec_of : MinecraftServer → List EnvVar → List EnvVar → PodSpec
unfolding override_container override_pod
pod_spec_of minecraft_server init_env env =
    let overrides = minecraft_server.spec.pod_overrides in
    override_pod overrides (
      base_pod_spec minecraft_server (init_container init_env)
        (override_container overrides (server_container env)))

-- `append`: the labels and the annotations of the operator win.
abbrev pub pod_labels : MinecraftServer → Dict String
pod_labels minecraft_server =
    extend minecraft_server.labels
      (get_labels minecraft_server "minecraft-server" "minecraft-server")

abbrev pod_annotations : MinecraftServer → Dict String
pod_annotations minecraft_server =
    extend minecraft_server.annotations
      (("kubectl.kubernetes.io/default-container", "minecraft-server") ∷ [])

abbrev pub pod_template : MinecraftServer → List EnvVar → List EnvVar → PodTemplateSpec
pod_template minecraft_server init_env env = record {
  metadata = meta_of none none (pod_labels minecraft_server) (pod_annotations minecraft_server);
  spec = pod_spec_of minecraft_server init_env env;
}

abbrev default_health : GameServerHealthSpec
default_health = record {
  disabled = some false;
  period_seconds = some 15;
  failure_threshold = some 5;
  initial_delay_seconds = some 30;
}

abbrev pub game_server_spec_of : MinecraftServer → PodTemplateSpec → GameServerSpec
game_server_spec_of minecraft_server template = record {
  ports = some [];
  health = some (override_health minecraft_server.spec.pod_overrides default_health);
  template = template;
  eviction = some (record { safe = "OnUpgrade" });
}

module _ {Bytes Url : Type 0} (around : Surroundings Bytes Url) (show_url : Url → String) where
  unfoldable pub get_pod_template_spec :
      GameServerBuilderContext → MinecraftServer → Outcome (Result BuildError PodTemplateSpec)
  unfolding get_init_env get_env
  get_pod_template_spec context minecraft_server =
      and_then (get_init_env around show_url context minecraft_server) (λ init_env.
        and_then (get_env around show_url context minecraft_server)
          (λ env. ok (Result.ok (pod_template minecraft_server init_env env))))

  unfoldable pub get_game_server_spec :
      GameServerBuilderContext → MinecraftServer → Outcome (Result BuildError GameServerSpec)
  unfolding get_pod_template_spec
  get_game_server_spec context minecraft_server =
      and_then (get_pod_template_spec context minecraft_server)
        (λ template. ok (Result.ok (game_server_spec_of minecraft_server template)))

  abbrev game_server_of : MinecraftServer → String → String → GameServerSpec → Object GameServerSpec
  game_server_of minecraft_server namespace name spec = record {
    metadata =
        meta_of (some name) (some namespace)
          (get_labels minecraft_server "minecraft-server" "minecraft-server")
          (("minecraftserver.shulkermc.io/tags", join "," minecraft_server.spec.tags) ∷ []);
    body = spec;
  }

  unfoldable pub build :
      MinecraftServer
      → String
      → GameServerBuilderContext
      → Outcome (Result BuildError (Object GameServerSpec))
  unfolding validate_spec get_game_server_spec
  build minecraft_server name context =
      and_then (ok (map_err refused (validate_spec minecraft_server))) (λ valid.
        unwrap minecraft_server.namespace >>= (λ namespace.
          and_then (get_game_server_spec context minecraft_server)
            (λ spec. ok (Result.ok (game_server_of minecraft_server namespace name spec)))))

-- ===== src/Operator/ProxyFleet/Fleet.antt =====
-- packages/shulker-operator/src/reconcilers/proxy_fleet/fleet.rs: the fleet of Agones for a fleet of
-- proxies, with the pod of a proxy.
use shulker.Prelude.{ℕ, String, false, List, [], ◌∷◌, Option, none, some}
use shulker.Prelude.Dict.{Dict, extend}
use shulker.Prelude.Int32.{I32, as_i32}
use shulker.Prelude.Text.{◌⧺◌}
use shulker.Outcome.{Outcome, ok, unwrap, ◌>>=◌}
use shulker.Fallible.{and_then}
use shulker.Result.{Result}
use shulker.Kubernetes.{Object}
use shulker.Kubernetes.Pod.{EnvVar, Probe, Container, PodSpec, PodTemplateSpec, meta_of}
use shulker.Agones.{GameServerHealthSpec, GameServerSpec, FleetSpec, DeploymentStrategy}
use shulker.Crds.Schemas.{
  ProbeOverrideSpec, merged_over, PodOverridesSpec, TemplateMeta, FleetAutoscalingSpec,
}
use shulker.Crds.ProxyFleet.{ProxyFleet}
use shulker.Operator.BuildError.{BuildError}
use shulker.Operator.Resources.Resolver.{Surroundings}
use shulker.Operator.Pods.{
  option_bind, proxy_security_context, override_container, override_pod, override_health,
}
use shulker.Operator.ProxyFleet.{
  FleetBuilderContext, get_labels, proxy_shulker_config_dir, proxy_data_dir,
}
use shulker.Operator.ProxyFleet.Volumes.{get_volumes, get_volume_mounts, init_volume_mounts}
use shulker.Operator.ProxyFleet.Env.{get_env, get_init_env}

abbrev proxy_image : String
proxy_image = "itzg/mc-proxy:2025.10.0-java25"

abbrev default_probe : ProbeOverrideSpec
default_probe = record {
  initial_delay_seconds = some 10;
  period_seconds = some 10;
  timeout_seconds = some 5;
  failure_threshold = some 3;
  success_threshold = some 1;
}

unfoldable resolve_readiness_probe : Option ProbeOverrideSpec → ProbeOverrideSpec
unfolding merged_over
resolve_readiness_probe none = default_probe
resolve_readiness_probe (some fleet_override) = merged_over fleet_override default_probe

abbrev probe_of : ProbeOverrideSpec → Probe
probe_of spec = record {
  exec_command = "bash" ∷ (proxy_data_dir ⧺ "/probe-readiness.sh") ∷ [];
  initial_delay_seconds = spec.initial_delay_seconds;
  period_seconds = spec.period_seconds;
  timeout_seconds = spec.timeout_seconds;
  failure_threshold = spec.failure_threshold;
  success_threshold = spec.success_threshold;
}

abbrev pub init_container : List EnvVar → Container
init_container env = record {
  name = "init-fs";
  image = some "alpine:latest";
  command = some ("sh" ∷ (proxy_shulker_config_dir ⧺ "/init-fs.sh") ∷ []);
  env = env;
  ports = [];
  resources = none;
  readiness_probe = none;
  image_pull_policy = none;
  security_context = some proxy_security_context;
  volume_mounts = init_volume_mounts;
}

unfoldable pub proxy_container : FleetBuilderContext → ProxyFleet → List EnvVar → Container
unfolding resolve_readiness_probe get_volume_mounts
proxy_container context proxy_fleet env = record {
  name = "proxy";
  image = some proxy_image;
  command = none;
  env = env;
  ports = record { name = some "minecraft"; container_port = 25577 } ∷ [];
  resources = none;
  readiness_probe = some (
      probe_of (
        resolve_readiness_probe (
          option_bind (λ (o : PodOverridesSpec). o.readiness_probe)
            proxy_fleet.spec.template.spec.pod_overrides)));
  image_pull_policy = some "IfNotPresent";
  security_context = some proxy_security_context;
  volume_mounts = get_volume_mounts context proxy_fleet;
}

abbrev pub base_pod_spec : FleetBuilderContext → ProxyFleet → Container → Container → PodSpec
unfolding get_volumes
base_pod_spec context proxy_fleet init main = record {
  init_containers = init ∷ [];
  containers = main ∷ [];
  image_pull_secrets = none;
  affinity = none;
  node_selector = none;
  tolerations = none;
  subdomain = none;
  service_account_name = some ("shulker-" ⧺ proxy_fleet.spec.cluster_ref.name ⧺ "-proxy");
  restart_policy = some "Never";
  volumes = get_volumes context proxy_fleet;
  security_context = none;
}

-- The pod under its overrides: those of its container and those of the rest.
unfoldable pub pod_spec_of : FleetBuilderContext → ProxyFleet → List EnvVar → List EnvVar → PodSpec
unfolding proxy_container override_container override_pod
pod_spec_of context proxy_fleet init_env env =
    let overrides = proxy_fleet.spec.template.spec.pod_overrides in
    override_pod overrides (
      base_pod_spec context proxy_fleet (init_container init_env)
        (override_container overrides (proxy_container context proxy_fleet env)))

abbrev pub extended : Dict String → Option (Dict String) → Dict String
extended entries none = entries
extended entries (some additional) = extend entries additional

abbrev pub pod_labels : ProxyFleet → Dict String
pod_labels proxy_fleet =
    extended (get_labels proxy_fleet "proxy" "proxy")
      (option_bind (λ (m : TemplateMeta). m.labels) proxy_fleet.spec.template.metadata)

abbrev pod_annotations : ProxyFleet → Dict String
pod_annotations proxy_fleet =
    extended (("kubectl.kubernetes.io/default-container", "proxy") ∷ [])
      (option_bind (λ (m : TemplateMeta). m.annotations) proxy_fleet.spec.template.metadata)

abbrev pub pod_template :
    FleetBuilderContext → ProxyFleet → List EnvVar → List EnvVar → PodTemplateSpec
unfolding pod_spec_of
pod_template context proxy_fleet init_env env = record {
  metadata = meta_of none none (pod_labels proxy_fleet) (pod_annotations proxy_fleet);
  spec = pod_spec_of context proxy_fleet init_env env;
}

abbrev default_health : GameServerHealthSpec
default_health = record {
  disabled = some false;
  period_seconds = some 10;
  failure_threshold = some 5;
  initial_delay_seconds = some 30;
}

abbrev pub game_server_spec_of : ProxyFleet → PodTemplateSpec → GameServerSpec
unfolding override_health
game_server_spec_of proxy_fleet template = record {
  ports = some [];
  health = some (override_health proxy_fleet.spec.template.spec.pod_overrides default_health);
  template = template;
  eviction = some (record { safe = "OnUpgrade" });
}

abbrev rolling_update : DeploymentStrategy
rolling_update = record {
  type_ = some "RollingUpdate";
  max_unavailable = some "25%";
  max_surge = some "25%";
}

-- The replicas of the fleet that is there, which its autoscaler sets, or those that are asked for.
abbrev pub replicas_of : Option FleetAutoscalingSpec → Option (Object FleetSpec) → ℕ → I32
replicas_of none existing_fleet replicas = as_i32 replicas
replicas_of (some autoscaling) existing_fleet replicas =
    existing_replicas (option_bind (λ (f : Object FleetSpec). f.body.replicas) existing_fleet)
  where
    existing_replicas : Option I32 → I32
    existing_replicas none = 0
    existing_replicas (some replicas) = replicas

module _ {Bytes Url : Type 0} (around : Surroundings Bytes Url) (show_url : Url → String) where
  unfoldable pub get_pod_template_spec :
      FleetBuilderContext → ProxyFleet → Outcome (Result BuildError PodTemplateSpec)
  unfolding get_init_env get_env
  get_pod_template_spec context proxy_fleet =
      and_then (get_init_env around show_url context proxy_fleet) (λ init_env.
        and_then (ok (get_env context proxy_fleet))
          (λ env. ok (Result.ok (pod_template context proxy_fleet init_env env))))

  unfoldable pub get_game_server_spec :
      FleetBuilderContext → ProxyFleet → Outcome (Result BuildError GameServerSpec)
  unfolding get_pod_template_spec
  get_game_server_spec context proxy_fleet =
      and_then (get_pod_template_spec context proxy_fleet)
        (λ template. ok (Result.ok (game_server_spec_of proxy_fleet template)))

  abbrev pub fleet_of : ProxyFleet → String → String → I32 → GameServerSpec → Object FleetSpec
  fleet_of proxy_fleet namespace name replicas game_server_spec = record {
    metadata = meta_of (some name) (some namespace) (get_labels proxy_fleet "proxy" "proxy") [];
    body = record {
      replicas = some replicas;
      strategy = some rolling_update;
      scheduling = some "Packed";
      template = record {
        metadata = some game_server_spec.template.metadata;
        spec = game_server_spec;
      };
    };
  }

  unfoldable pub build :
      ProxyFleet
      → String
      → Option (Object FleetSpec)
      → FleetBuilderContext
      → Outcome (Result BuildError (Object FleetSpec))
  unfolding get_game_server_spec
  build proxy_fleet name existing_fleet context =
      and_then (get_game_server_spec context proxy_fleet) (λ game_server_spec.
        unwrap proxy_fleet.namespace >>= (λ namespace. ok (
          Result.ok (
            fleet_of proxy_fleet namespace name
              (replicas_of proxy_fleet.spec.autoscaling existing_fleet proxy_fleet.spec.replicas)
              game_server_spec))))

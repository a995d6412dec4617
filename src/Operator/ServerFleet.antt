-- ===== src/Operator/ServerFleet.antt =====
-- packages/shulker-operator/src/reconcilers/minecraft_server_fleet: the resources of a fleet of
-- servers: the fleet of Agones (fleet.rs), which is built from the server that the template
-- describes, its autoscaler (fleet_autoscaler.rs) and its labels (mod.rs).
pub mod Laws
pub mod Examples
use shulker.Prelude.{String, Bool, [], ◌∷◌, Option, none, some}
use shulker.Prelude.Dict.{Dict, is_some}
use shulker.Prelude.Int32.{I32}
use shulker.Prelude.Text.{◌⧺◌, join}
use shulker.Outcome.{Outcome, ok, unwrap, ◌>>=◌}
use shulker.Fallible.{and_then}
use shulker.Result.{Result}
use shulker.Kubernetes.{Object}
use shulker.Kubernetes.Pod.{meta_of}
use shulker.Agones.{
  GameServerSpec, FleetSpec, DeploymentStrategy, FleetAutoscalerSpec, FleetAutoscalerPolicySpec,
}
use shulker.Crds.Schemas.{TemplateMeta, FleetAutoscalingSpec}
use shulker.Crds.MinecraftServer.{MinecraftServer}
use shulker.Crds.MinecraftServerFleet.{MinecraftServerFleet}
use shulker.Operator.BuildError.{BuildError}
use shulker.Operator.Resources.Resolver.{Surroundings}
use shulker.Operator.Pods.{option_bind}
use shulker.Operator.ProxyFleet.{FleetBuilderContext}
use shulker.Operator.ProxyFleet.Fleet.{extended, replicas_of}
use shulker.Operator.MinecraftServer.{GameServerBuilderContext}
use shulker.Operator.MinecraftServer.GameServer.{get_game_server_spec}

abbrev pub get_labels : MinecraftServerFleet → String → String → Dict String
get_labels minecraft_server_fleet name component =
    ("app.kubernetes.io/name", name)
    ∷ ("app.kubernetes.io/instance", name ⧺ "-" ⧺ minecraft_server_fleet.name_any)
    ∷ ("app.kubernetes.io/component", component)
    ∷ ("app.kubernetes.io/part-of", "cluster-" ⧺ minecraft_server_fleet.spec.cluster_ref.name)
    ∷ ("app.kubernetes.io/managed-by", "shulker-operator")
    ∷ ("minecraftcluster.shulkermc.io/name", minecraft_server_fleet.spec.cluster_ref.name)
    ∷ ("minecraftserverfleet.shulkermc.io/name", minecraft_server_fleet.name_any)
    ∷ []

abbrev pub fleet_name : MinecraftServerFleet → String
fleet_name minecraft_server_fleet = minecraft_server_fleet.name_any

abbrev pub config_map_name : MinecraftServerFleet → String
config_map_name minecraft_server_fleet = minecraft_server_fleet.name_any ⧺ "-config"

abbrev template_labels : MinecraftServerFleet → Dict String
template_labels minecraft_server_fleet =
    extended (get_labels minecraft_server_fleet "minecraft-server" "minecraft-server")
      (option_bind (λ (m : TemplateMeta). m.labels) minecraft_server_fleet.spec.template.metadata)

abbrev template_annotations : MinecraftServerFleet → Dict String
template_annotations minecraft_server_fleet =
    extended
      ((
        "minecraftserver.shulkermc.io/tags",
        join "," minecraft_server_fleet.spec.template.spec.tags,
      )
        ∷ [])
      (option_bind (λ (m : TemplateMeta). m.annotations)
        minecraft_server_fleet.spec.template.metadata)

-- The server that stands for those of the fleet, with the configuration of the fleet.
unfoldable pub fake_minecraft_server : MinecraftServerFleet → MinecraftServer
fake_minecraft_server minecraft_server_fleet = record {
  name_any = minecraft_server_fleet.name_any;
  namespace = minecraft_server_fleet.namespace;
  labels = template_labels minecraft_server_fleet;
  annotations = template_annotations minecraft_server_fleet;
  deletion_timestamp = none;
  spec = record (minecraft_server_fleet.spec.template.spec) {
    config = record (minecraft_server_fleet.spec.template.spec.config) {
      existing_config_map_name = some (config_map_name minecraft_server_fleet);
    };
  };
}

abbrev recreate : DeploymentStrategy
recreate = record { type_ = some "Recreate"; max_unavailable = none; max_surge = none }

-- The variable SHULKER_RCON_PASSWORD of the operator is the last argument.
abbrev pub server_context :
    MinecraftServerFleet → FleetBuilderContext → Option String → GameServerBuilderContext
server_context minecraft_server_fleet context rcon_password_variable = record {
  cluster = context.cluster;
  agent_config = context.agent_config;
  owning_fleet = some minecraft_server_fleet;
  rcon_password_variable = rcon_password_variable;
}

abbrev pub fleet_of :
    MinecraftServerFleet → String → String → I32 → GameServerSpec → Object FleetSpec
fleet_of minecraft_server_fleet namespace name replicas game_server_spec = record {
  metadata =
      meta_of (some name) (some namespace)
        (get_labels minecraft_server_fleet "minecraft-server" "minecraft-server") [];
  body = record {
    replicas = some replicas;
    strategy = some recreate;
    scheduling = some "Packed";
    template = record {
      metadata = some (
          meta_of none none (template_labels minecraft_server_fleet)
            (template_annotations minecraft_server_fleet));
      spec = game_server_spec;
    };
  };
}

module _ {Bytes Url : Type 0} (around : Surroundings Bytes Url) (show_url : Url → String) where
  unfoldable pub build :
      MinecraftServerFleet
      → String
      → Option (Object FleetSpec)
      → FleetBuilderContext
      → Option String
      → Outcome (Result BuildError (Object FleetSpec))
  unfolding fake_minecraft_server get_game_server_spec
  build minecraft_server_fleet name existing_fleet context rcon_password_variable =
      and_then
        (get_game_server_spec around show_url
          (server_context minecraft_server_fleet context rcon_password_variable)
          (fake_minecraft_server minecraft_server_fleet))
        (λ game_server_spec. unwrap minecraft_server_fleet.namespace >>= (λ namespace. ok (
          Result.ok (
            fleet_of minecraft_server_fleet namespace name
              (replicas_of minecraft_server_fleet.spec.autoscaling existing_fleet
                minecraft_server_fleet.spec.replicas)
              game_server_spec))))

abbrev policy_of : Option FleetAutoscalingSpec → Option FleetAutoscalerPolicySpec
policy_of = option_bind (λ (a : FleetAutoscalingSpec). a.agones_policy)

abbrev pub fleet_autoscaler_is_needed : MinecraftServerFleet → Bool
fleet_autoscaler_is_needed minecraft_server_fleet =
    is_some (policy_of minecraft_server_fleet.spec.autoscaling)

unfoldable build_fleet_autoscaler :
    MinecraftServerFleet → String → Outcome (Object FleetAutoscalerSpec)
build_fleet_autoscaler minecraft_server_fleet name = do
  namespace ← unwrap minecraft_server_fleet.namespace
  policy ← unwrap (policy_of minecraft_server_fleet.spec.autoscaling)
  ok (record {
    metadata =
        meta_of (some name) (some namespace)
          (get_labels minecraft_server_fleet "fleet-autoscaler" "minecraft-server") [];
    body = record { fleet_name = fleet_name minecraft_server_fleet; policy = policy };
  })

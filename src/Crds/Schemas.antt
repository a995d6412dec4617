-- ===== src/Crds/Schemas.antt =====
-- packages/shulker-crds/src/schemas.rs: the parts that several specifications share, and the
-- overrides of pods, which minecraft_server.rs and proxy_fleet.rs (src/v1alpha1) declare alike.
use shulker.Prelude.{String, List, Option, none, some}
use shulker.Prelude.Dict.{Dict}
use shulker.Prelude.Int32.{I32}
use shulker.Agones.{GameServerHealthSpec, FleetAutoscalerPolicySpec}
use shulker.Kubernetes.Pod.{EnvVar, VolumeMount, Volume, ContainerPort}

-- The metadata that a template adds, as far as it is read.
pub record TemplateMeta : Type 0 where
  pub labels : Option (Dict String)
  pub annotations : Option (Dict String)

pub record TemplateSpec (T : Type 0) : Type 0 where
  pub metadata : Option TemplateMeta
  pub spec : T

pub record ImageOverrideSpec : Type 0 where
  pub name : Option String
  pub pull_policy : Option String
  pub image_pull_secrets : Option (List String)

pub record FleetAutoscalingSpec : Type 0 where
  pub agones_policy : Option FleetAutoscalerPolicySpec

pub record ProbeOverrideSpec : Type 0 where
  pub initial_delay_seconds : Option I32
  pub period_seconds : Option I32
  pub timeout_seconds : Option I32
  pub failure_threshold : Option I32
  pub success_threshold : Option I32

-- `Option::or`.
abbrev pub or {ℓ} : {A : Type ℓ} → Option A → Option A → Option A
or none other = other
or (some a) other = some a

unfoldable pub merged_over : ProbeOverrideSpec → ProbeOverrideSpec → ProbeOverrideSpec
merged_over self base = record {
  initial_delay_seconds = or self.initial_delay_seconds base.initial_delay_seconds;
  period_seconds = or self.period_seconds base.period_seconds;
  timeout_seconds = or self.timeout_seconds base.timeout_seconds;
  failure_threshold = or self.failure_threshold base.failure_threshold;
  success_threshold = or self.success_threshold base.success_threshold;
}

pub record PodOverridesSpec : Type 0 where
  pub image : Option ImageOverrideSpec
  pub env : Option (List EnvVar)
  pub resources : Option String
  pub affinity : Option String
  pub node_selector : Option (Dict String)
  pub tolerations : Option (List String)
  pub service_account_name : Option String
  pub volume_mounts : Option (List VolumeMount)
  pub volumes : Option (List Volume)
  pub ports : Option (List ContainerPort)
  pub health : Option GameServerHealthSpec
  pub readiness_probe : Option ProbeOverrideSpec

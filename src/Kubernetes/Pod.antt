-- ===== src/Kubernetes/Pod.antt =====
-- The pods of Kubernetes (`k8s-openapi`), with the fields that the program reads or writes. A list
-- that the program always gives is no option. What it only copies (resources, affinities,
-- tolerations) is a text.
use shulker.Prelude.{ℕ, String, Bool, List, [], Option, none, some}
use shulker.Prelude.Dict.{Dict}
use shulker.Prelude.Int32.{I32}
use shulker.Kubernetes.{ObjectMeta}

pub record SecretKeySelector : Type 0 where
  pub name : String
  pub key : String

pub record EnvVar : Type 0 where
  pub name : String
  pub value : Option String
  pub secret_key_ref : Option SecretKeySelector

abbrev pub env_value : String → String → EnvVar
env_value name value = record { name = name; value = some value; secret_key_ref = none }

abbrev pub env_secret : String → String → String → EnvVar
env_secret name secret key = record {
  name = name;
  value = none;
  secret_key_ref = some (record { name = secret; key = key });
}

pub record VolumeMount : Type 0 where
  pub name : String
  pub mount_path : String
  pub sub_path : Option String
  pub read_only : Option Bool

abbrev pub mount : String → String → Option Bool → VolumeMount
mount name path read_only = record {
  name = name;
  mount_path = path;
  sub_path = none;
  read_only = read_only;
}

pub data VolumeSource : Type 0 where
  config_map : String → VolumeSource
  secret : String → VolumeSource
  empty_dir : VolumeSource
  other_source : String → VolumeSource

pub record Volume : Type 0 where
  pub name : String
  pub source : VolumeSource

abbrev pub volume : String → VolumeSource → Volume
volume name source = record { name = name; source = source }

pub record ContainerPort : Type 0 where
  pub name : Option String
  pub container_port : I32

pub record SecurityContext : Type 0 where
  pub allow_privilege_escalation : Option Bool
  pub read_only_root_filesystem : Option Bool
  pub run_as_non_root : Option Bool
  pub run_as_user : Option ℕ
  pub dropped_capabilities : List String

pub record PodSecurityContext : Type 0 where
  pub run_as_user : Option ℕ
  pub run_as_group : Option ℕ
  pub run_as_non_root : Option Bool
  pub fs_group : Option ℕ

pub record Probe : Type 0 where
  pub exec_command : List String
  pub initial_delay_seconds : Option I32
  pub period_seconds : Option I32
  pub timeout_seconds : Option I32
  pub failure_threshold : Option I32
  pub success_threshold : Option I32

pub record Container : Type 0 where
  pub name : String
  pub image : Option String
  pub command : Option (List String)
  pub env : List EnvVar
  pub ports : List ContainerPort
  pub resources : Option String
  pub readiness_probe : Option Probe
  pub image_pull_policy : Option String
  pub security_context : Option SecurityContext
  pub volume_mounts : List VolumeMount

pub record PodSpec : Type 0 where
  pub init_containers : List Container
  pub containers : List Container
  pub image_pull_secrets : Option (List String)
  pub affinity : Option String
  pub node_selector : Option (Dict String)
  pub tolerations : Option (List String)
  pub subdomain : Option String
  pub service_account_name : Option String
  pub restart_policy : Option String
  pub volumes : List Volume
  pub security_context : Option PodSecurityContext

pub record PodTemplateSpec : Type 0 where
  pub metadata : ObjectMeta
  pub spec : PodSpec

-- Metadata with labels and annotations only, `..ObjectMeta::default()`.
abbrev pub meta_of : Option String → Option String → Dict String → Dict String → ObjectMeta
meta_of name namespace labels annotations = record {
  name = name;
  namespace = namespace;
  resource_version = none;
  deletion_timestamp = none;
  annotations = annotations;
  labels = labels;
  owner_references = [];
}

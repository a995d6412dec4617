-- ===== src/Operator/Cluster/Redis.antt =====
-- packages/shulker-operator/src/reconcilers: the managed Redis of a cluster
-- (minecraft_cluster/redis_service.rs, minecraft_cluster/redis_stateful_set.rs) and what refers to
-- it or to a provided one (redis_ref.rs).
use shulker.Prelude.{ℕ, String, Bool, true, false, List, [], ◌∷◌, Option, none, some}
use shulker.Prelude.Dict.{Dict}
use shulker.Prelude.Text.{◌⧺◌}
use shulker.Outcome.{Outcome}
use shulker.Result.{Result, ok, err}
use shulker.Kubernetes.{Object}
use shulker.Kubernetes.Pod.{
  PodTemplateSpec, Container, SecurityContext, PodSecurityContext, env_value, mount, meta_of,
}
use shulker.Crds.MinecraftCluster.{
  MinecraftCluster, MinecraftClusterRedisDeploymentType, managed_single_node, provided,
  MinecraftClusterRedisSpec, MinecraftClusterRedisProvidedSpec,
}
use shulker.Operator.BuildError.{BuildError, message}
use shulker.Operator.Cluster.{get_labels, resource_of}

pub record ServicePort : Type 0 where
  pub name : Option String
  pub protocol : Option String
  pub port : ℕ
  pub target_port : Option String

pub record ServiceSpec : Type 0 where
  pub selector : Dict String
  pub type_ : Option String
  pub cluster_ip : Option String
  pub ports : List ServicePort

-- The claim of a volume: its name, its access modes and the resources it requests.
pub record VolumeClaim : Type 0 where
  pub name : String
  pub access_modes : List String
  pub requests : Dict String

pub record StatefulSetSpec : Type 0 where
  pub match_labels : Dict String
  pub service_name : Option String
  pub replicas : Option ℕ
  pub template : PodTemplateSpec
  pub volume_claim_templates : List VolumeClaim

abbrev is_managed_type : MinecraftClusterRedisDeploymentType → Bool
is_managed_type managed_single_node = true
is_managed_type provided = false

-- `is_none_or`.
abbrev pub is_managed : Option MinecraftClusterRedisSpec → Bool
is_managed none = true
is_managed (some redis) = is_managed_type redis.type_

abbrev pub redis_service_name : MinecraftCluster → String
redis_service_name cluster = cluster.name_any ⧺ "-redis-managed"

abbrev pub redis_service_is_needed : MinecraftCluster → Bool
redis_service_is_needed cluster = is_managed cluster.spec.redis

unfoldable pub build_redis_service : MinecraftCluster → String → Outcome (Object ServiceSpec)
build_redis_service cluster name = resource_of cluster name "redis" "redis" (record {
  selector = get_labels cluster "redis" "redis";
  type_ = some "ClusterIP";
  cluster_ip = none;
  ports =
      record { name = some "redis"; protocol = some "TCP"; port = 6379; target_port = some "redis" }
      ∷ [];
})

abbrev pub redis_stateful_set_name : MinecraftCluster → String
redis_stateful_set_name cluster = cluster.name_any ⧺ "-redis-managed"

abbrev redis_stateful_set_is_needed : MinecraftCluster → Bool
redis_stateful_set_is_needed cluster = is_managed cluster.spec.redis

abbrev redis_data_dir : String
redis_data_dir = "/data"

abbrev redis_pod_security_context : PodSecurityContext
redis_pod_security_context = record {
  run_as_user = some 1000;
  run_as_group = some 1000;
  run_as_non_root = some true;
  fs_group = some 1000;
}

abbrev redis_security_context : SecurityContext
redis_security_context = record {
  allow_privilege_escalation = some false;
  read_only_root_filesystem = some true;
  run_as_non_root = none;
  run_as_user = none;
  dropped_capabilities = "ALL" ∷ [];
}

abbrev redis_container : Container
redis_container = record {
  name = "redis";
  image = some "redis:7-alpine";
  command = some ("redis-server" ∷ ("--dir " ⧺ redis_data_dir) ∷ []);
  env = env_value "MASTER" "true" ∷ [];
  ports = record { name = some "redis"; container_port = 6379 } ∷ [];
  resources = none;
  readiness_probe = none;
  image_pull_policy = none;
  security_context = some redis_security_context;
  volume_mounts = mount "data" redis_data_dir none ∷ [];
}

unfoldable pub get_redis_pod_template_spec : MinecraftCluster → PodTemplateSpec
get_redis_pod_template_spec cluster = record {
  metadata = meta_of none none (get_labels cluster "redis" "redis") [];
  spec = record {
    init_containers = [];
    containers = redis_container ∷ [];
    image_pull_secrets = none;
    affinity = none;
    node_selector = none;
    tolerations = none;
    subdomain = none;
    service_account_name = none;
    restart_policy = none;
    volumes = [];
    security_context = some redis_pod_security_context;
  };
}

abbrev get_volume_claim_templates : List VolumeClaim
get_volume_claim_templates =
    record {
      name = "data";
      access_modes = "ReadWriteOnce" ∷ [];
      requests = ("storage", "1Gi") ∷ [];
    }
    ∷ []

unfoldable pub build_redis_stateful_set :
    MinecraftCluster → String → Outcome (Object StatefulSetSpec)
unfolding get_redis_pod_template_spec
build_redis_stateful_set cluster name = resource_of cluster name "redis" "redis" (record {
  match_labels = get_labels cluster "redis" "redis";
  service_name = some (redis_service_name cluster);
  replicas = some 1;
  template = get_redis_pod_template_spec cluster;
  volume_claim_templates = get_volume_claim_templates;
})

-- The port is a `u16`.
pub record RedisRef : Type 0 where
  pub host : String
  pub port : ℕ
  pub credentials_secret_name : Option String

abbrev pub managed_ref : MinecraftCluster → RedisRef
managed_ref cluster = record {
  host = redis_service_name cluster;
  port = 6379;
  credentials_secret_name = none;
}

abbrev provided_ref : Option MinecraftClusterRedisProvidedSpec → Result BuildError RedisRef
provided_ref none = err (message "Redis is not managed and no provided spec was found")
provided_ref (some spec) = ok (record {
  host = spec.host;
  port = spec.port;
  credentials_secret_name = spec.credentials_secret_name;
})

abbrev pub ref_of_type :
    MinecraftCluster
    → MinecraftClusterRedisDeploymentType
    → Option MinecraftClusterRedisProvidedSpec
    → Result BuildError RedisRef
ref_of_type cluster managed_single_node spec = ok (managed_ref cluster)
ref_of_type cluster provided spec = provided_ref spec

abbrev pub ref_of : MinecraftCluster → Option MinecraftClusterRedisSpec → Result BuildError RedisRef
ref_of cluster none = ok (managed_ref cluster)
ref_of cluster (some redis) = ref_of_type cluster redis.type_ redis.provided

unfoldable pub from_cluster : MinecraftCluster → Result BuildError RedisRef
from_cluster cluster = ref_of cluster cluster.spec.redis

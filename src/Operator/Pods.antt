-- ===== src/Operator/Pods.antt =====
-- packages/shulker-operator/src/reconcilers: what the builders of proxies (proxy_fleet/fleet.rs) and
-- of servers (minecraft_server/gameserver.rs) do alike: the overrides of a pod and of its health
-- checks, the security context and the addresses to download.
pub mod Laws
use shulker.Prelude.{String, true, false, List, [], ◌∷◌, ◌++◌, map, Option, none, some}
use shulker.Prelude.Text.{join}
use shulker.Outcome.{Outcome, ok, panicked, running}
use shulker.Fallible.{and_then}
use shulker.Result.{Result, map_err}
use shulker.Kubernetes.Pod.{EnvVar, env_value, env_secret, SecurityContext, Container, PodSpec}
use shulker.Agones.{GameServerHealthSpec}
use shulker.Crds.Schemas.{PodOverridesSpec, ImageOverrideSpec, or}
use shulker.Operator.BuildError.{BuildError, unresolved}
use shulker.Operator.Resources.ResourceRef.{ResourceRefError, ResourceRefSpec}
use shulker.Operator.Resources.Resolver.{Surroundings, resolve_all}

abbrev pub proxy_security_context : SecurityContext
proxy_security_context = record {
  allow_privilege_escalation = some false;
  read_only_root_filesystem = some true;
  run_as_non_root = some true;
  run_as_user = some 1000;
  dropped_capabilities = "ALL" ∷ [];
}

-- What an option adds to a list.
abbrev pub listed {ℓ κ} : {A : Type ℓ} {B : Type κ} → (A → List B) → Option A → List B
listed f none = []
listed f (some a) = f a

abbrev pub option_bind {ℓ κ} : {A : Type ℓ} {B : Type κ} → (A → Option B) → Option A → Option B
option_bind f none = none
option_bind f (some a) = f a

unfoldable pub override_container : Option PodOverridesSpec → Container → Container
override_container none container = container
override_container (some overrides) container = record container {
  image = or (option_bind (λ (i : ImageOverrideSpec). i.name) overrides.image) container.image;
  image_pull_policy =
      or (option_bind (λ (i : ImageOverrideSpec). i.pull_policy) overrides.image)
        container.image_pull_policy;
  resources = or overrides.resources container.resources;
  volume_mounts = container.volume_mounts ++ listed (λ mounts. mounts) overrides.volume_mounts;
  ports = container.ports ++ listed (λ ports. ports) overrides.ports;
}

unfoldable pub override_pod : Option PodOverridesSpec → PodSpec → PodSpec
override_pod none pod_spec = pod_spec
override_pod (some overrides) pod_spec = record pod_spec {
  image_pull_secrets =
      or (option_bind (λ (i : ImageOverrideSpec). i.image_pull_secrets) overrides.image)
        pod_spec.image_pull_secrets;
  affinity = or overrides.affinity pod_spec.affinity;
  node_selector = or overrides.node_selector pod_spec.node_selector;
  tolerations = overrides.tolerations;
  volumes = pod_spec.volumes ++ listed (λ volumes. volumes) overrides.volumes;
}

abbrev health_over : Option GameServerHealthSpec → GameServerHealthSpec → GameServerHealthSpec
health_over none default_health = default_health
health_over (some health) default_health = record {
  disabled = or health.disabled default_health.disabled;
  period_seconds = or health.period_seconds default_health.period_seconds;
  failure_threshold = or health.failure_threshold default_health.failure_threshold;
  initial_delay_seconds = or health.initial_delay_seconds default_health.initial_delay_seconds;
}

unfoldable pub override_health :
    Option PodOverridesSpec → GameServerHealthSpec → GameServerHealthSpec
override_health none default_health = default_health
override_health (some overrides) default_health = health_over overrides.health default_health

abbrev pub env_overrides : Option PodOverridesSpec → List EnvVar
env_overrides none = []
env_overrides (some overrides) = listed (λ env. env) overrides.env

abbrev pub redis_credentials : Option String → List EnvVar
redis_credentials none = []
redis_credentials (some secret_name) =
    env_secret "SHULKER_REDIS_USERNAME" secret_name "username"
    ∷ env_secret "SHULKER_REDIS_PASSWORD" secret_name "password"
    ∷ []

-- The error of a reference, as an `anyhow::Error`.
abbrev pub or_unresolved :
    {A : Type 0} → Outcome (Result ResourceRefError A) → Outcome (Result BuildError A)
or_unresolved (ok result) = ok (map_err unresolved result)
or_unresolved panicked = panicked
or_unresolved running = running

module _ {Bytes Url : Type 0} (around : Surroundings Bytes Url) (show_url : Url → String) where
  -- The references of a list, if there is one, in the namespace of the owner.
  unfoldable pub resolve_listed :
      Option String → Option (List ResourceRefSpec) → Outcome (Result BuildError (List Url))
  resolve_listed namespace none = ok (Result.ok [])
  resolve_listed namespace (some refs) =
      or_unresolved (and_then (named namespace) (λ ns. resolve_all around ns refs))
    where
      named : Option String → Outcome (Result ResourceRefError String)
      named none = panicked
      named (some ns) = ok (Result.ok ns)

  -- One variable with all the addresses, unless there is none.
  abbrev pub plugins_env : String → List Url → List EnvVar
  plugins_env name [] = []
  plugins_env name (url ∷ urls) = env_value name (join ";" (map show_url (url ∷ urls))) ∷ []

  -- One variable with all the addresses, if references are given.
  abbrev pub patches_env : String → Option (List ResourceRefSpec) → List Url → List EnvVar
  patches_env name none urls = []
  patches_env name (some refs) urls = env_value name (join ";" (map show_url urls)) ∷ []

-- ===== src/Operator/Cluster/Laws.antt =====
-- packages/shulker-operator/src/reconcilers: what the resources of a cluster have to do with each
-- other (redis_ref.rs, minecraft_cluster/forwarding_secret.rs, minecraft_cluster/*_role_binding.rs).
use shulker.Prelude.{String, true, [], ◌∷◌, Option, none, some, ◌≡◌, refl, sym, ap, map}
use shulker.Prelude.Dict.{Dict, get}
use shulker.Outcome.{ok, >>=-eq-ok, ok-injective}
use shulker.Result.{Result}
use shulker.Kubernetes.{Object}
use shulker.Crds.MinecraftCluster.{
  MinecraftCluster, MinecraftClusterRedisSpec, MinecraftClusterRedisDeploymentType,
  managed_single_node, provided, MinecraftClusterRedisProvidedSpec,
}
use shulker.Kubernetes.Pod.{meta_of}
use shulker.Operator.Cluster.{resource_of, metadata_of, get_labels}
use shulker.Operator.Cluster.Redis.{
  RedisRef, ServiceSpec, StatefulSetSpec, from_cluster, managed_ref, ref_of, ref_of_type,
  is_managed, redis_service_is_needed, redis_service_name, build_redis_service,
  redis_stateful_set_name, build_redis_stateful_set, get_redis_pod_template_spec,
}
use shulker.Operator.Cluster.Secret.{
  SecretBody, build_forwarding_secret, get_existing_or_new_forwarding_secret, secret_data_key,
}

ref_of_type_managed :
    (cluster : MinecraftCluster) (type_ : MinecraftClusterRedisDeploymentType)
    (spec : Option MinecraftClusterRedisProvidedSpec)
    → is_managed (some (record { type_ = type_; provided = spec })) ≡ true
    → ref_of_type cluster type_ spec ≡ Result.ok (managed_ref cluster)
ref_of_type_managed cluster managed_single_node spec h = refl
ref_of_type_managed cluster provided spec h = cc

ref_of_managed :
    (cluster : MinecraftCluster) (redis : Option MinecraftClusterRedisSpec)
    → is_managed redis ≡ true
    → ref_of cluster redis ≡ Result.ok (managed_ref cluster)
ref_of_managed cluster none h = refl
ref_of_managed cluster (some redis) h = ref_of_type_managed cluster redis.type_ redis.provided h

-- A resource of a cluster that has a namespace.
resource_of_named :
    {Body : Type 0} (cluster : MinecraftCluster) (name label component namespace : String)
    (body : Body)
    → cluster.namespace ≡ some namespace
    → resource_of cluster name label component body
      ≡ ok (record {
        metadata = meta_of (some name) (some namespace) (get_labels cluster label component) [];
        body = body;
      })
resource_of_named cluster name label component namespace body named = simp named

-- Where the managed Redis of a cluster can be reached: the reference names the service, the service
-- has the port of the reference and selects the pods of the stateful set.
abbrev pub IsServed :
    MinecraftCluster → RedisRef → Object ServiceSpec → Object StatefulSetSpec → Type 0
IsServed cluster r service stateful_set =
    (from_cluster cluster ≡ Result.ok r)
    × (build_redis_service cluster (redis_service_name cluster) ≡ ok service)
    × (build_redis_stateful_set cluster (redis_stateful_set_name cluster) ≡ ok stateful_set)
    × (service.metadata.name ≡ some r.host)
    × (service.body.ports
        ≡ record {
          name = some "redis";
          protocol = some "TCP";
          port = r.port;
          target_port = some "redis";
        }
          ∷ [])
    × (stateful_set.body.service_name ≡ some r.host)
    × (service.body.selector ≡ stateful_set.body.template.metadata.labels)
    × (service.metadata.namespace ≡ cluster.namespace)

-- If the Redis of a cluster with a namespace is managed, the reference to it names the service that
-- the reconciler builds, with the port of this service, which selects the pods of the stateful set.
pub managed_redis-IsServed :
    (cluster : MinecraftCluster) (namespace : String)
    → redis_service_is_needed cluster ≡ true
    → cluster.namespace ≡ some namespace
    → (r : RedisRef) × (service : Object ServiceSpec) × (stateful_set : Object StatefulSetSpec)
      × IsServed cluster r service stateful_set
unfolding from_cluster build_redis_service build_redis_stateful_set get_redis_pod_template_spec
managed_redis-IsServed cluster namespace needed named = (
  managed_ref cluster,
  _,
  _,
  (
    ref_of_managed cluster cluster.spec.redis needed,
    resource_of_named cluster (redis_service_name cluster) "redis" "redis" namespace _ named,
    resource_of_named cluster (redis_stateful_set_name cluster) "redis" "redis" namespace _ named,
    refl,
    refl,
    refl,
    refl,
    sym named,
  ),
)

resource_of-body :
    {Body : Type 0} (cluster : MinecraftCluster) (name label component : String) (body : Body)
    {built : Object Body}
    → resource_of cluster name label component body ≡ ok built
    → built.body ≡ body
resource_of-body cluster name label component body {built} h =
    let (metadata, _, e) =
      >>=-eq-ok (metadata_of cluster name label component)
        (λ m. ok (record { metadata = m; body = body })) h in
    sym (ap (λ (o : Object _). o.body) (ok-injective e))

-- How the API server keeps a secret that is written: the texts of `stringData` are moved to `data`,
-- in bytes.
abbrev stored_data :
    {Bytes : Type 0} → (String → Bytes) → Option (Dict String) → Option (Dict Bytes)
stored_data to_bytes none = none
stored_data to_bytes (some texts) =
    some (map (λ (entry : String × String). (entry.0, to_bytes entry.1)) texts)

abbrev pub stored :
    {Bytes : Type 0} → (String → Bytes) → Object (SecretBody Bytes) → Object (SecretBody Bytes)
stored to_bytes secret = record secret {
  body = record (secret.body) {
    data_ = stored_data to_bytes secret.body.string_data;
    string_data = none;
  };
}

read_back :
    {Bytes : Type 0} (from_utf8 : Bytes → Option String) (to_bytes : String → Bytes)
    (secret : Object (SecretBody Bytes)) (key fresh : String)
    → from_utf8 (to_bytes key) ≡ some key
    → secret.body.string_data ≡ some ((secret_data_key, key) ∷ [])
    → get_existing_or_new_forwarding_secret from_utf8 (some (stored to_bytes secret)) fresh ≡ ok key
unfolding get_existing_or_new_forwarding_secret get
read_back from_utf8 to_bytes secret key fresh decoded texts = simp (texts, decoded)

-- The forwarding secret of a cluster, once written, is built again as it is, whatever the random
-- generator gives, if the texts that the API server keeps in bytes read back.
pub forwarding_secret_kept :
    {Bytes : Type 0} (from_utf8 : Bytes → Option String) (to_bytes : String → Bytes)
    (roundtrip : (text : String) → from_utf8 (to_bytes text) ≡ some text)
    (cluster : MinecraftCluster) (name : String)
    (existing_secret : Option (Object (SecretBody Bytes))) (fresh later : String)
    {secret : Object (SecretBody Bytes)}
    → build_forwarding_secret from_utf8 cluster name existing_secret fresh ≡ ok secret
    → build_forwarding_secret from_utf8 cluster name (some (stored to_bytes secret)) later
      ≡ ok secret
unfolding build_forwarding_secret
forwarding_secret_kept {Bytes} from_utf8 to_bytes roundtrip cluster name existing_secret fresh later
      {secret} h =
    let (key, _, built) =
      >>=-eq-ok (get_existing_or_new_forwarding_secret from_utf8 existing_secret fresh) _ h in
    let same = read_back from_utf8 to_bytes secret key later (roundtrip key) (
      ap (λ (b : SecretBody Bytes). b.string_data)
        (resource_of-body cluster name "forwarding-secret" "proxy" _ built)) in
    rw same built

-- ===== src/Operator/Cluster/Examples.antt =====
-- The Redis and the forwarding secret of a concrete cluster.
use shulker.Prelude.{String, [], ◌∷◌, Option, none, some, ◌≡◌, refl}
use shulker.Outcome.{ok}
use shulker.Kubernetes.{Object}
use shulker.Kubernetes.Pod.{meta_of}
use shulker.Operator.Cluster.{get_labels}
use shulker.Operator.Cluster.Redis.{RedisRef, ServiceSpec, StatefulSetSpec}
use shulker.Operator.Cluster.Secret.{
  SecretBody, build_forwarding_secret, get_existing_or_new_forwarding_secret,
}
use shulker.Operator.Cluster.Laws.{IsServed, managed_redis-IsServed, stored, forwarding_secret_kept}
use shulker.Operator.Fixtures.{my_cluster}

managed_redis-IsServed_example :
    (r : RedisRef) × (service : Object ServiceSpec) × (stateful_set : Object StatefulSetSpec)
    × IsServed my_cluster r service stateful_set
managed_redis-IsServed_example = managed_redis-IsServed my_cluster "default" refl refl

abbrev read_text : String → Option String
read_text bytes = some bytes

abbrev to_bytes : String → String
to_bytes text = text

abbrev first_secret : Object (SecretBody String)
first_secret = record {
  metadata =
      meta_of (some "my-cluster-forwarding-secret") (some "default")
        (get_labels my_cluster "forwarding-secret" "proxy") [];
  body = record { type_ = some "Opaque"; data_ = none; string_data = some (("key", "fresh") ∷ []) };
}

forwarding_secret_kept_example :
    build_forwarding_secret read_text my_cluster "my-cluster-forwarding-secret"
      (some (stored to_bytes first_secret))
      "other"
    ≡ ok first_secret
unfolding build_forwarding_secret get_existing_or_new_forwarding_secret
forwarding_secret_kept_example =
    forwarding_secret_kept read_text to_bytes (λ text. refl) my_cluster
      "my-cluster-forwarding-secret" none "fresh" "other" refl

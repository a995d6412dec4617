-- ===== src/Operator/Cluster/Secret.antt =====
-- packages/shulker-operator/src/reconcilers/minecraft_cluster/forwarding_secret.rs: the secret that
-- the proxies of a cluster share with its servers. A new one comes from a random generator, an
-- argument; the decoder of UTF-8 is an argument too.
use shulker.Prelude.{String, [], ◌∷◌, Option, none, some}
use shulker.Prelude.Dict.{Dict, get}
use shulker.Prelude.Text.{◌⧺◌}
use shulker.Outcome.{Outcome, ok, unwrap, ◌>>=◌}
use shulker.Kubernetes.{Object}
use shulker.Crds.MinecraftCluster.{MinecraftCluster}
use shulker.Operator.Cluster.{resource_of}

-- `Secret` of `k8s-openapi`.
pub record SecretBody (Bytes : Type 0) : Type 0 where
  pub type_ : Option String
  pub data_ : Option (Dict Bytes)
  pub string_data : Option (Dict String)

abbrev pub secret_data_key : String
secret_data_key = "key"

abbrev pub forwarding_secret_name : MinecraftCluster → String
forwarding_secret_name cluster = cluster.name_any ⧺ "-forwarding-secret"

module _ {Bytes : Type 0} (from_utf8 : Bytes → Option String) where
  abbrev decoded_or_new : Option Bytes → String → Outcome String
  decoded_or_new none fresh = ok fresh
  decoded_or_new (some bytes) fresh = unwrap (from_utf8 bytes)

  abbrev text_or_new : Option String → String → String
  text_or_new none fresh = fresh
  text_or_new (some text) fresh = text

  abbrev secret_of : Option (Dict Bytes) → Option (Dict String) → String → Outcome String
  secret_of (some data_) string_data fresh = decoded_or_new (get secret_data_key data_) fresh
  secret_of none (some string_data) fresh = ok (text_or_new (get secret_data_key string_data) fresh)
  secret_of none none fresh = ok fresh

  unfoldable pub get_existing_or_new_forwarding_secret :
      Option (Object (SecretBody Bytes)) → String → Outcome String
  get_existing_or_new_forwarding_secret none fresh = ok fresh
  get_existing_or_new_forwarding_secret (some existing) fresh =
      secret_of existing.body.data_ existing.body.string_data fresh

  unfoldable pub build_forwarding_secret :
      MinecraftCluster
      → String
      → Option (Object (SecretBody Bytes))
      → String
      → Outcome (Object (SecretBody Bytes))
  unfolding get_existing_or_new_forwarding_secret
  build_forwarding_secret cluster name existing_secret fresh = do
    key ← get_existing_or_new_forwarding_secret existing_secret fresh
    resource_of cluster name "forwarding-secret" "proxy" (record {
      type_ = some "Opaque";
      data_ = none;
      string_data = some ((secret_data_key, key) ∷ []);
    })

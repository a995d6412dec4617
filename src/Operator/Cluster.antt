-- ===== src/Operator/Cluster.antt =====
-- packages/shulker-operator/src/reconcilers/minecraft_cluster: the resources of a cluster, with the
-- labels that they share (mod.rs). `build` unwraps the namespace, which is a panic without one.
pub mod Redis
pub mod Access
pub mod Secret
pub mod Servers
pub mod Laws
pub mod Examples
use shulker.Prelude.{String, [], ◌∷◌, Option, some}
use shulker.Prelude.Dict.{Dict}
use shulker.Prelude.Text.{◌⧺◌}
use shulker.Outcome.{Outcome, ok, unwrap, ◌>>=◌}
use shulker.Kubernetes.{ObjectMeta, Object}
use shulker.Kubernetes.Pod.{meta_of}
use shulker.Crds.MinecraftCluster.{MinecraftCluster}

abbrev pub get_labels : MinecraftCluster → String → String → Dict String
get_labels cluster name component =
    ("app.kubernetes.io/name", name)
    ∷ ("app.kubernetes.io/instance", name ⧺ "-" ⧺ cluster.name_any)
    ∷ ("app.kubernetes.io/component", component)
    ∷ ("app.kubernetes.io/part-of", "cluster-" ⧺ cluster.name_any)
    ∷ ("app.kubernetes.io/managed-by", "shulker-operator")
    ∷ ("minecraftcluster.shulkermc.io/name", cluster.name_any)
    ∷ []

-- The metadata that all the builders give, and a resource of that metadata.
abbrev pub metadata_of : MinecraftCluster → String → String → String → Outcome ObjectMeta
metadata_of cluster name label component = do
  namespace ← unwrap cluster.namespace
  ok (meta_of (some name) (some namespace) (get_labels cluster label component) [])

abbrev pub resource_of :
    {Body : Type 0} → MinecraftCluster → String → String → String → Body → Outcome (Object Body)
resource_of cluster name label component body = do
  metadata ← metadata_of cluster name label component
  ok (record { metadata = metadata; body = body })

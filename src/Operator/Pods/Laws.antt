-- ===== src/Operator/Pods/Laws.antt =====
-- What the overrides of a pod do: which value of a variable counts, and where a mounted volume comes
-- from.
use shulker.Prelude.{
  String, Bool, true, false, ◌||◌, List, [], ◌∷◌, ◌++◌, Option, none, some, ◌≡◌, refl, ◌==◌,
  if◌then◌else◌, All, All-append, All-mono, Bool-cases, inl, inr,
}
use shulker.Kubernetes.Pod.{EnvVar, Volume, VolumeMount, Container, PodSpec}
use shulker.Crds.Schemas.{PodOverridesSpec, or}
use shulker.Operator.Pods.{listed, override_container, override_pod}

-- The variable that a container sees under a name: Kubernetes lets the last one win.
unfoldable pub effective : String → List EnvVar → Option EnvVar
effective name [] = none
effective name (var ∷ env) = or (effective name env) (if var.name == name then some var else none)

or_assoc {ℓ} : {A : Type ℓ} (a b c : Option A) → or (or a b) c ≡ or a (or b c)
or_assoc none b c = refl
or_assoc (some a) b c = refl

pub effective-append :
    (name : String) (front back : List EnvVar)
    → effective name (front ++ back) ≡ or (effective name back) (effective name front)
unfolding effective
effective-append name [] back = or_none (effective name back)
  where
    or_none : (o : Option EnvVar) → o ≡ or o none
    or_none none = refl
    or_none (some var) = refl
effective-append name (var ∷ front) back = rw (effective-append name front back) (
    or_assoc (effective name back) (effective name front)
      (if var.name == name then some var else none))

-- Whether a volume of the name is among those of the pod.
unfoldable pub declares : String → List Volume → Bool
declares name [] = false
declares name (v ∷ volumes) = (v.name == name) || declares name volumes

abbrev pub IsMounted : List Volume → VolumeMount → Type 0
IsMounted volumes m = declares m.name volumes ≡ true

declares-append :
    (name : String) (front back : List Volume)
    → declares name front ≡ true
    → declares name (front ++ back) ≡ true
unfolding declares
declares-append name [] back h = cc
declares-append name (v ∷ front) back h = elim (Bool-cases (v.name == name)) [
  | inl e ↦ rw e
  | inr e ↦ rw e (declares-append name front back (rw e at h))
]

-- Every volume that a container of the pod mounts is a volume of the pod.
abbrev pub IsWellMounted : PodSpec → Type 0
IsWellMounted pod_spec =
    All (λ (c : Container). All (IsMounted pod_spec.volumes) c.volume_mounts)
      (pod_spec.init_containers ++ pod_spec.containers)

-- What is mounted by overrides is a volume of the pod or of the overrides.
abbrev pub OverridesMounted : Option PodOverridesSpec → List Volume → Type 0
OverridesMounted none volumes = Unit {0}
OverridesMounted (some overrides) volumes =
    All (IsMounted (volumes ++ listed (λ v. v) overrides.volumes))
      (listed (λ m. m) overrides.volume_mounts)

override_keeps_mounts :
    (overrides : Option PodOverridesSpec) (pod_spec : PodSpec) (mounts : List VolumeMount)
    → All (IsMounted pod_spec.volumes) mounts
    → All (IsMounted (override_pod overrides pod_spec).volumes) mounts
unfolding override_pod
override_keeps_mounts none pod_spec mounts h = h
override_keeps_mounts (some overrides) pod_spec mounts h =
    All-mono (IsMounted pod_spec.volumes) _ mounts
      (λ m. declares-append m.name pod_spec.volumes (listed (λ v. v) overrides.volumes)) h

override-IsMounted :
    (overrides : Option PodOverridesSpec) (pod_spec : PodSpec) (container : Container)
    → All (IsMounted pod_spec.volumes) container.volume_mounts
    → OverridesMounted overrides pod_spec.volumes
    → All
        (IsMounted (override_pod overrides pod_spec).volumes)
        (override_container overrides container).volume_mounts
unfolding override_pod override_container
override-IsMounted none pod_spec container h given = h
override-IsMounted (some overrides) pod_spec container h given =
    All-append _ container.volume_mounts (listed (λ m. m) overrides.volume_mounts)
      (All-mono (IsMounted pod_spec.volumes) _ container.volume_mounts
        (λ m. declares-append m.name pod_spec.volumes (listed (λ v. v) overrides.volumes)) h)
      given

-- A pod of two containers, whose mounts are its volumes, stays well mounted under its overrides.
pub override_pod-IsWellMounted :
    (overrides : Option PodOverridesSpec) (pod_spec : PodSpec) (init main : Container)
    → All (IsMounted pod_spec.volumes) init.volume_mounts
    → All (IsMounted pod_spec.volumes) main.volume_mounts
    → OverridesMounted overrides pod_spec.volumes
    → IsWellMounted (
        override_pod overrides (record pod_spec {
          init_containers = init ∷ [];
          containers = override_container overrides main ∷ [];
        }))
unfolding override_pod override_container
override_pod-IsWellMounted none pod_spec init main i m given = (i, (m, tt))
override_pod-IsWellMounted (some overrides) pod_spec init main i m given = (
  override_keeps_mounts (some overrides) pod_spec init.volume_mounts i,
  (override-IsMounted (some overrides) pod_spec main m given, tt),
)

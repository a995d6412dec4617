-- ===== src/Kubernetes.antt =====
-- The objects, errors and parameters of the Kubernetes client (`kube`, `k8s-openapi`), with the
-- fields that the program reads or writes. A map of annotations or labels that is absent is not
-- told apart from an empty one, as kube's accessors do not.
pub mod Pod
use shulker.Prelude.{ℕ, String, Bool, List, Option}
use shulker.Prelude.Dict.{Dict}

pub record ErrorResponse : Type 0 where
  pub code : ℕ
  pub message : String

-- `kube::Error`: an answer of the API server, or any failure to get one.
pub data KubeError : Type 0 where
  api : ErrorResponse → KubeError
  other : String → KubeError

pub record OwnerReference : Type 0 where
  pub api_version : String
  pub kind : String
  pub name : String
  pub uid : String
  pub controller : Option Bool

pub record ObjectMeta : Type 0 where
  pub name : Option String
  pub namespace : Option String
  pub resource_version : Option String
  pub deletion_timestamp : Option ℕ
  pub annotations : Dict String
  pub labels : Dict String
  pub owner_references : List OwnerReference

-- A resource: its metadata and what its kind adds.
pub record Object (Body : Type 0) : Type 0 where
  pub metadata : ObjectMeta
  pub body : Body

-- A custom resource of the program, by what kube's accessors give of its metadata.
pub record Resource (Spec : Type 0) : Type 0 where
  pub name_any : String
  pub namespace : Option String
  pub labels : Dict String
  pub annotations : Dict String
  pub deletion_timestamp : Option ℕ
  pub spec : Spec

pub record PatchParams : Type 0 where
  pub field_manager : Option String
  pub force : Bool

pub record PostParams : Type 0 where
  pub dry_run : Bool
  pub field_manager : Option String

-- ===== src/KubeUtils/Status.antt =====
-- packages/shulker-kube-utils/src/reconcilers/status.rs: writing the status of a resource.
use shulker.Prelude.{String, Option, none, some}
use shulker.Result.{Result, ok, map_err}
use shulker.Kubernetes.{KubeError}
use shulker.KubeUtils.Builder.{BuilderReconcilerError, failed_to_update_status}

-- The patch of a status, with the kind of the resource.
pub record StatusPatch (Status : Type 0) : Type 0 where
  pub api_version : String
  pub kind : String
  pub status : Status

-- The answer of the API server, and the patch that was sent, if one was.
pub patch_status :
    {Status : Type 0}
    → (String → StatusPatch Status → Result KubeError (Unit {0}))
    → String
    → String
    → String
    → Option Status
    → Result BuilderReconcilerError (Unit {0}) × Option (StatusPatch Status)
patch_status send api_version kind name none = (ok tt, none)
patch_status {Status = Status} send api_version kind name (some status) =
    let patch : StatusPatch Status = record {
      api_version = api_version;
      kind = kind;
      status = status;
    } in
    (map_err failed_to_update_status (send name patch), some patch)

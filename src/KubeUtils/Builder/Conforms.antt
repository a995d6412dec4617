-- ===== src/KubeUtils/Builder/Conforms.antt =====
-- An API server that does what it is asked, as reconcile_builder of
-- packages/shulker-kube-utils/src/reconcilers/builder.rs relies on it.
use shulker.Prelude.{◌≡◌, String, List, ◌∷◌, Option, none, some}
use shulker.Result.{ok, err}
use shulker.Kubernetes.{KubeError, ErrorResponse, Object}
use shulker.KubeUtils.Builder.{Call, get, delete, patch, create, Api, patch_params, post_params}

-- What the API server keeps under one name, and that it does what it is asked: `stored` is what is
-- there after some calls (a resource without finalizers, so that a deletion is at once), and `apply`
-- is how server-side apply merges a patch into a resource. A creation is kept and returned as it is
-- sent: what the server fills in, such as the resource version, is left out.
pub record Conforms {Body : Type 0} (server : Api Body) (name : String)
    (stored : List (Call Body) → Option (Object Body))
    (apply : Object Body → Object Body → Object Body) : Type 0 where
  pub missing : ErrorResponse
  pub missing_code : missing.code ≡ 404
  pub get_missing :
      (calls : List (Call Body))
      → stored calls ≡ none
      → server.get_reply calls name ≡ err (KubeError.api missing)
  pub get_stored :
      (calls : List (Call Body)) (r : Object Body)
      → stored calls ≡ some r
      → server.get_reply calls name ≡ ok r
  pub stored-get : (calls : List (Call Body)) → stored (get name ∷ calls) ≡ stored calls
  pub delete_ok : (calls : List (Call Body)) → server.delete_reply calls name ≡ ok tt
  pub stored-delete : (calls : List (Call Body)) → stored (delete name ∷ calls) ≡ none
  pub patch_ok :
      (calls : List (Call Body)) (r new : Object Body)
      → stored calls ≡ some r
      → server.patch_reply calls name patch_params new ≡ ok (apply r new)
  pub stored-patch :
      (calls : List (Call Body)) (r new : Object Body)
      → stored calls ≡ some r
      → stored (patch name patch_params new ∷ calls) ≡ some (apply r new)
  pub create_ok :
      (calls : List (Call Body)) (new : Object Body)
      → stored calls ≡ none
      → server.create_reply calls post_params new ≡ ok new
  pub stored-create :
      (calls : List (Call Body)) (new : Object Body)
      → stored calls ≡ none
      → stored (create post_params new ∷ calls) ≡ some new

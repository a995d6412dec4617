-- ===== src/KubeUtils/Builder.antt =====
-- packages/shulker-kube-utils/src/reconcilers/builder.rs: bringing one resource of an owner to the
-- state that its builder asks for. The API server is `Api`: each reply is a function of the calls
-- made before, newest first. Logging is left out.
pub mod Laws
pub mod Conforms
pub mod Settles
pub mod Trace
pub mod Examples
use shulker.Prelude.{
  ℕ, String, Bool, true, false, not, List, [], ◌∷◌, ◌++◌, Option, none, some, nat_eq, if◌then◌else◌,
}
use shulker.Prelude.Dict.{Dict, insert, contains_key}
use shulker.Outcome.{Outcome, panicked}
use shulker.Result.{Result, ok, err, map_err}
use shulker.Kubernetes.{KubeError, ErrorResponse, OwnerReference, Object, PatchParams, PostParams}

-- The source of an `anyhow::Error`.
pub data Cause : Type 0 where
  kube : KubeError → Cause
  message : String → Cause

pub data BuilderReconcilerError : Type 0 where
  validation_error : String → String → BuilderReconcilerError
  builder_error : String → Cause → BuilderReconcilerError
  failed_to_update_status : KubeError → BuilderReconcilerError

-- The trait, with `type_name` for the name of the implementing type, and `controller_owner_ref` of
-- the owner's own trait.
pub record ResourceBuilder (Owner Body Context : Type 0) : Type 0 where
  pub type_name : String
  pub controller_owner_ref : Owner → Option OwnerReference
  pub name : Owner → String
  pub is_needed : Owner → Bool
  pub is_recreation_needed : Owner → Object Body → Bool
  pub build : Owner → String → Option (Object Body) → Option Context → Result Cause (Object Body)

pub data Call (Body : Type 0) : Type 0 where
  get : String → Call Body
  delete : String → Call Body
  patch : String → PatchParams → Object Body → Call Body
  create : PostParams → Object Body → Call Body

pub record Api (Body : Type 0) : Type 0 where
  pub get_reply : List (Call Body) → String → Result KubeError (Object Body)
  pub delete_reply : List (Call Body) → String → Result KubeError (Unit {0})
  pub patch_reply :
      List (Call Body) → String → PatchParams → Object Body → Result KubeError (Object Body)
  pub create_reply : List (Call Body) → PostParams → Object Body → Result KubeError (Object Body)

module _ {Body : Type 0} where
  -- The reply to a `get`: a resource that is not found is no error.
  unfoldable pub existing_of : Result KubeError (Object Body) → Result Cause (Option (Object Body))
  existing_of (ok r) = ok (some r)
  existing_of (err (KubeError.api e)) =
      if nat_eq e.code 404 then ok none else err (kube (KubeError.api e))
  existing_of (err (KubeError.other e)) = err (kube (KubeError.other e))

  unfoldable pub set_controller_reference : OwnerReference → Object Body → Object Body
  set_controller_reference reference resource = record resource {
    metadata = record (resource.metadata) {
      owner_references = resource.metadata.owner_references ++ (reference ∷ []);
    };
  }

-- The annotations of the existing resource that the new one does not set.
unfoldable pub keep_annotations : Dict String → Dict String → Dict String
keep_annotations [] new = new
keep_annotations ((key, value) ∷ existing) new =
    keep_annotations existing (if contains_key key new then new else insert key value new)

unfoldable pub carry_annotations : {Body : Type 0} → Object Body → Object Body → Object Body
unfolding keep_annotations
carry_annotations existing new = record new {
  metadata = record (new.metadata) {
    annotations = keep_annotations existing.metadata.annotations new.metadata.annotations;
  };
}

abbrev pub patch_params : PatchParams
patch_params = record { field_manager = some "shulker-operator"; force = true }

abbrev pub post_params : PostParams
post_params = record { dry_run = false; field_manager = some "shulker-operator" }

-- Whether a reconciliation returns at once, or goes on with the resource that is there.
pub data Flow (Body : Type 0) : Type 0 where
  return : Result BuilderReconcilerError (Option (Object Body)) → Flow Body
  go_on : Option (Object Body) → Flow Body

abbrev pub Effect : Type 0 → Type 0
Effect Body = Outcome (Result BuilderReconcilerError (Option (Object Body))) × List (Call Body)

module _ {Owner Body Context : Type 0} (server : Api Body)
    (builder : ResourceBuilder Owner Body Context) (owner : Owner) (context : Option Context) where
  unfoldable pub reply_of :
      Result KubeError (Object Body) → Result BuilderReconcilerError (Option (Object Body))
  reply_of (ok r) = ok (some r)
  reply_of (err e) = err (builder_error builder.type_name (kube e))

  unfoldable pub after_delete : Flow Body → Result KubeError (Unit {0}) → Flow Body
  after_delete flow (ok done) = flow
  after_delete flow (err e) = return (err (builder_error builder.type_name (kube e)))

  -- The existing resource is deleted when it is not needed or has to be made anew.
  unfoldable pub check_existing :
      Result Cause (Option (Object Body)) → List (Call Body) → Flow Body × List (Call Body)
  unfolding after_delete
  check_existing (err e) calls = (return (err (builder_error builder.type_name e)), calls)
  check_existing (ok none) calls = (go_on none, calls)
  check_existing (ok (some existing)) calls =
      let name = builder.name owner in
      let reply = server.delete_reply calls name in
      if not (builder.is_needed owner)
      then (after_delete (return (ok none)) reply, delete name ∷ calls)
      else if builder.is_recreation_needed owner existing
      then (after_delete (go_on none) reply, delete name ∷ calls)
      else (go_on (some existing), calls)

  unfoldable pub create_new : Object Body → Option OwnerReference → List (Call Body) → Effect Body
  unfolding set_controller_reference reply_of
  create_new new none calls = (panicked, calls)
  create_new new (some reference) calls =
      let owned = set_controller_reference reference new in
      (
        Outcome.ok (reply_of (server.create_reply calls post_params owned)),
        create post_params owned ∷ calls,
      )

  unfoldable pub write :
      Option (Object Body) → Result Cause (Object Body) → List (Call Body) → Effect Body
  unfolding carry_annotations create_new reply_of
  write existing (err e) calls = (Outcome.ok (err (builder_error builder.type_name e)), calls)
  write none (ok new) calls = create_new new (builder.controller_owner_ref owner) calls
  write (some existing) (ok new) calls =
      let merged = carry_annotations existing new in
      let name = builder.name owner in
      (
        Outcome.ok (reply_of (server.patch_reply calls name patch_params merged)),
        patch name patch_params merged ∷ calls,
      )

  unfoldable pub build_and_write : Flow Body → List (Call Body) → Effect Body
  unfolding write
  build_and_write (return result) calls = (Outcome.ok result, calls)
  build_and_write (go_on existing) calls =
      if not (builder.is_needed owner)
      then (Outcome.ok (ok none), calls)
      else write existing (builder.build owner (builder.name owner) existing context) calls

  pub reconcile_builder : List (Call Body) → Effect Body
  unfolding existing_of check_existing build_and_write
  reconcile_builder calls =
      let name = builder.name owner in
      let (flow, calls') =
        check_existing (existing_of (server.get_reply calls name)) (get name ∷ calls) in
      build_and_write flow calls'

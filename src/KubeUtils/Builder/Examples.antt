-- ===== src/KubeUtils/Builder/Examples.antt =====
-- Tests of `reconcile_builder`, and witnesses of its theorems: a builder of numbers, on a server
-- that keeps one resource.
use shulker.Prelude.{ℕ, ◌+◌, ◌≡◌, refl, String, true, List, [], ◌∷◌, Option, none, some, ltb}
use shulker.Prelude.Dict
use shulker.Prelude.Dict.{Dict}
use shulker.Outcome.{Outcome}
use shulker.Result.{Result, ok, err}
use shulker.Kubernetes.{KubeError, ErrorResponse, OwnerReference, ObjectMeta, Object}
use shulker.KubeUtils.Builder.{
  Call, get, delete, patch, create, Api, ResourceBuilder, existing_of, check_existing,
  build_and_write, reconcile_builder, patch_params, post_params, carry_annotations,
  set_controller_reference, write, create_new, after_delete,
}
use shulker.KubeUtils.Builder.Conforms.{Conforms}
use shulker.KubeUtils.Builder.Settles.{reconcile_builder_settles}
use shulker.KubeUtils.Builder.Trace.{IsJustified, reconcile_builder-IsJustified}

abbrev metadata_of : Dict String → ObjectMeta
metadata_of annotations = record {
  name = some "counter";
  namespace = some "default";
  resource_version = none;
  deletion_timestamp = none;
  annotations = annotations;
  labels = [];
  owner_references = [];
}

abbrev counter_of : Dict String → ℕ → Object ℕ
counter_of annotations n = record { metadata = metadata_of annotations; body = n }

abbrev owner_reference : OwnerReference
owner_reference = record {
  api_version = "v1";
  kind = "Owner";
  name = "owner";
  uid = "1";
  controller = some true;
}

abbrev built : ℕ → Option (Object ℕ) → Object ℕ
built owner none = counter_of (("built", "anew") ∷ []) owner
built owner (some r) = counter_of (("built", "again") ∷ []) (owner + r.body)

-- The owner is a number: 0 needs no counter, and a counter over 100 has to be made anew.
abbrev counters : ResourceBuilder ℕ ℕ (Unit {0})
counters = record {
  type_name = "Counters";
  controller_owner_ref = λ owner. some owner_reference;
  name = λ owner. "counter";
  is_needed = λ owner. ltb 0 owner;
  is_recreation_needed = λ owner r. ltb 100 r.body;
  build = λ owner name existing context. ok (built owner existing);
}

abbrev missing : ErrorResponse
missing = record { code = 404; message = "not found" }

abbrev forbidden : ErrorResponse
forbidden = record { code = 403; message = "forbidden" }

abbrev store : Option (Object ℕ) → List (Call ℕ) → Option (Object ℕ)
store before [] = before
store before (get name ∷ calls) = store before calls
store before (delete name ∷ calls) = none
store before (patch name params new ∷ calls) = some new
store before (create params new ∷ calls) = some new

abbrev read : Option (Object ℕ) → Result KubeError (Object ℕ)
read none = err (KubeError.api missing)
read (some r) = ok r

abbrev server_with : Option (Object ℕ) → Api ℕ
server_with before = record {
  get_reply = λ calls name. read (store before calls);
  delete_reply = λ calls name. ok tt;
  patch_reply = λ calls name params new. ok new;
  create_reply = λ calls params new. ok new;
}

-- A server that refuses what it is asked.
abbrev refusing : Option (Object ℕ) → Api ℕ
refusing before = record {
  get_reply = λ calls name. elim before [ some r ↦ ok r | none ↦ err (KubeError.api forbidden) ];
  delete_reply = λ calls name. err (KubeError.api forbidden);
  patch_reply = λ calls name params new. err (KubeError.api forbidden);
  create_reply = λ calls params new. err (KubeError.api forbidden);
}

abbrev replacing : Object ℕ → Object ℕ → Object ℕ
replacing existing new = new

abbrev server_with_conforms :
    (before : Option (Object ℕ)) → Conforms (server_with before) "counter" (store before) replacing
server_with_conforms before = record {
  missing = missing;
  missing_code = refl;
  get_missing = λ calls m. rw m;
  get_stored = λ calls r s. rw s;
  stored-get = λ calls. refl;
  delete_ok = λ calls. refl;
  stored-delete = λ calls. refl;
  patch_ok = λ calls r new s. refl;
  stored-patch = λ calls r new s. refl;
  create_ok = λ calls new m. refl;
  stored-create = λ calls new m. refl;
}

abbrev old_counter : Object ℕ
old_counter = counter_of (("seen", "yes") ∷ ("built", "before") ∷ []) 5

patches_old_counter :
    (reconcile_builder (server_with (some old_counter)) counters 7 none []).1
    ≡ patch "counter" patch_params (counter_of (("built", "again") ∷ ("seen", "yes") ∷ []) 12)
      ∷ get "counter"
      ∷ []
unfolding reconcile_builder existing_of check_existing build_and_write write carry_annotations
    Dict.contains_key Dict.insert
patches_old_counter = refl

replaces_big_counter :
    (reconcile_builder (server_with (some (counter_of [] 101))) counters 7 none []).1
    ≡ create post_params
        (set_controller_reference owner_reference (counter_of (("built", "anew") ∷ []) 7))
      ∷ delete "counter"
      ∷ get "counter"
      ∷ []
unfolding reconcile_builder existing_of check_existing build_and_write write create_new after_delete
replaces_big_counter = refl

reconcile_builder-IsJustified_example :
    IsJustified
      (server_with (some old_counter))
      counters
      7
      none
      (reconcile_builder (server_with (some old_counter)) counters 7 none []).1
reconcile_builder-IsJustified_example =
    reconcile_builder-IsJustified (server_with (some old_counter)) counters 7 none [] tt

reconcile_builder_settles_example :
    ((reconcile_builder (server_with (some old_counter)) counters 7 none []).0
      ≡ Outcome.ok (ok (some (carry_annotations old_counter (built 7 (some old_counter))))))
    × (store
          (some old_counter)
          (reconcile_builder (server_with (some old_counter)) counters 7 none []).1
        ≡ some (carry_annotations old_counter (built 7 (some old_counter))))
reconcile_builder_settles_example =
    reconcile_builder_settles (server_with (some old_counter)) counters 7 none
      (store (some old_counter)) replacing (server_with_conforms (some old_counter)) (built 7)
      owner_reference [] (λ existing. refl) refl

-- ===== src/KubeUtils/Builder/Laws.antt =====
-- The annotations that a patch carries over, and the errors of a reconciliation.
use shulker.Prelude.{
  ◌≡◌, refl, Bool, true, false, not, ◌||◌, String, List, [], ◌∷◌, ◌++◌, Option, none, some, eq_iff,
  arith, nat_eq, Option-cases, Bool-cases, inl, inr,
}
use shulker.Prelude.Dict
use shulker.Prelude.Dict.{Dict, contains_key, insert, get-insert}
use shulker.Outcome.{Outcome}
use shulker.Result.{ok, err}
use shulker.Kubernetes.{KubeError, OwnerReference, Object}
use shulker.KubeUtils.Builder.{
  kube, builder_error, Call, get, delete, Api, ResourceBuilder, existing_of, Effect,
  keep_annotations, carry_annotations, set_controller_reference, check_existing, build_and_write,
  reconcile_builder, after_delete,
}

-- The first value if there is one, else the second.
abbrev pub or_else {ℓ} : {A : Type ℓ} → Option A → Option A → Option A
or_else none o = o
or_else (some a) o = some a

-- The annotations that a patch writes are those that the builder sets and, at the keys that it does
-- not set, those of the existing resource.
get-keep_annotations :
    (key : String) (existing new : Dict String)
    → Dict.get key (keep_annotations existing new)
      ≡ or_else (Dict.get key new) (Dict.get key existing)
unfolding keep_annotations Dict.get contains_key
get-keep_annotations key [] new = elim (Option-cases (Dict.get key new)) [
  | inl e ↦ rw e
  | inr (v, e) ↦ rw e
]
get-keep_annotations key ((j, v) ∷ existing) new = elim (Option-cases (Dict.get j new)) [
  | inl e ↦ rw e (
      ground (
        arith,
        eq_iff j key,
        get-keep_annotations key existing (insert j v new),
        get-insert j key v new,
      ))
  | inr (w, e) ↦ rw e (ground (arith, eq_iff j key, get-keep_annotations key existing new))
]

-- What a patch writes: what was built, with the annotations of the existing resource at the keys that
-- were not set.
abbrev pub Carries : {Body : Type 0} → Object Body → Object Body → Object Body → Type 0
Carries existing new resource =
    (resource ≡ record new {
      metadata = record (new.metadata) { annotations = resource.metadata.annotations };
    })
    × ((key : String)
        → Dict.get key resource.metadata.annotations
          ≡ or_else (Dict.get key new.metadata.annotations)
              (Dict.get key existing.metadata.annotations))

-- What a creation writes: what was built, with one more owner.
abbrev pub IsOwnedBy : {Body : Type 0} → OwnerReference → Object Body → Object Body → Type 0
IsOwnedBy reference new resource = resource ≡ record new {
  metadata = record (new.metadata) {
    owner_references = new.metadata.owner_references ++ (reference ∷ []);
  };
}

pub carry_annotations-Carries :
    {Body : Type 0} (existing new : Object Body)
    → Carries existing new (carry_annotations existing new)
unfolding carry_annotations
carry_annotations-Carries existing new =
    (refl, λ key. get-keep_annotations key existing.metadata.annotations new.metadata.annotations)

pub set_controller_reference-IsOwnedBy :
    {Body : Type 0} (reference : OwnerReference) (new : Object Body)
    → IsOwnedBy reference new (set_controller_reference reference new)
unfolding set_controller_reference
set_controller_reference-IsOwnedBy reference new = refl

module _ {Owner Body Context : Type 0} (server : Api Body)
    (builder : ResourceBuilder Owner Body Context) (owner : Owner) (context : Option Context) where
  abbrev Failed : KubeError → List (Call Body) → Effect Body
  Failed e calls = (Outcome.ok (err (builder_error builder.type_name (kube e))), calls)

  abbrev is_not_found : KubeError → Bool
  is_not_found (KubeError.api e) = nat_eq e.code 404
  is_not_found (KubeError.other e) = false

  existing_of_error :
      (e : KubeError) → is_not_found e ≡ false → existing_of {Body = Body} (err e) ≡ err (kube e)
  unfolding existing_of
  existing_of_error (KubeError.api e) h = rw h
  existing_of_error (KubeError.other e) h = refl

  -- A reading that fails, other than by finding nothing, ends the reconciliation with its error:
  -- nothing is built, deleted or written.
  reconcile_builder_unreadable :
      (calls : List (Call Body)) (e : KubeError)
      → server.get_reply calls (builder.name owner) ≡ err e
      → is_not_found e ≡ false
      → reconcile_builder server builder owner context calls
        ≡ Failed e (get (builder.name owner) ∷ calls)
  unfolding reconcile_builder check_existing build_and_write
  reconcile_builder_unreadable calls e h found =
      rw (h, existing_of_error e found, check_existing, build_and_write)

  -- When a resource that is there is not needed or has to be made anew, and its deletion fails, the
  -- reconciliation ends with that error: nothing is built or written.
  reconcile_builder_undeleted :
      (calls : List (Call Body)) (e : KubeError) (r : Object Body)
      → server.get_reply calls (builder.name owner) ≡ ok r
      → (not (builder.is_needed owner) || builder.is_recreation_needed owner r) ≡ true
      → server.delete_reply (get (builder.name owner) ∷ calls) (builder.name owner) ≡ err e
      → reconcile_builder server builder owner context calls
        ≡ Failed e (delete (builder.name owner) ∷ get (builder.name owner) ∷ calls)
  unfolding reconcile_builder check_existing existing_of after_delete build_and_write
  reconcile_builder_undeleted calls e r found drop failed =
      elim (Bool-cases (builder.is_needed owner)) [
        | inr unneeded ↦
            rw (found, existing_of, check_existing, unneeded, failed, after_delete, build_and_write)
        | inl needed ↦
            let anew : builder.is_recreation_needed owner r ≡ true = ground (arith, drop, needed) in
            rw (
              found, existing_of, check_existing, needed, anew, failed, after_delete,
              build_and_write,
            )
      ]

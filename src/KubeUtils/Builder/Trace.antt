-- ===== src/KubeUtils/Builder/Trace.antt =====
-- The calls that a reconciliation makes, whatever the API server replies.
use shulker.Prelude.{
  ◌≡◌, refl, ◌⊎◌, inl, inr, true, false, List, [], ◌∷◌, Option, none, some, nat_eq, Bool-cases,
  Option-cases, arith,
}
use shulker.KubeUtils.Builder.Laws.{
  Carries, IsOwnedBy, carry_annotations-Carries, set_controller_reference-IsOwnedBy,
}
use shulker.Result.{Result, ok, err}
use shulker.Kubernetes.{KubeError, ErrorResponse, OwnerReference, Object}
use shulker.KubeUtils.Builder.{
  Cause, Call, get, delete, patch, create, Api, ResourceBuilder, Flow, return, go_on, existing_of,
  patch_params, post_params, after_delete, check_existing, create_new, write, build_and_write,
  reconcile_builder,
}

module _ {Owner Body Context : Type 0} (server : Api Body)
    (builder : ResourceBuilder Owner Body Context) (owner : Owner) (context : Option Context) where
  -- The last call read the resource of the builder's name, and this was there.
  abbrev pub Saw : Object Body → List (Call Body) → Type 0
  Saw r [] = ⊥
  Saw r (get name ∷ before) =
      (name ≡ builder.name owner) × (server.get_reply before (builder.name owner) ≡ ok r)
  Saw r (delete name ∷ before) = ⊥
  Saw r (patch name params resource ∷ before) = ⊥
  Saw r (create params resource ∷ before) = ⊥

  -- The last call read that there is no such resource, or it deleted, with success, the one that was
  -- there and has to be made anew.
  abbrev pub IsCleared : List (Call Body) → Type 0
  IsCleared [] = ⊥
  IsCleared (get name ∷ before) =
      (e : ErrorResponse) × (server.get_reply before (builder.name owner) ≡ err (KubeError.api e))
      × (e.code ≡ 404)
  IsCleared (delete name ∷ before) =
      (server.delete_reply before (builder.name owner) ≡ ok tt)
      × ((r : Object Body) × Saw r before × (builder.is_recreation_needed owner r ≡ true))
  IsCleared (patch name params resource ∷ before) = ⊥
  IsCleared (create params resource ∷ before) = ⊥

  -- Why each call is made, newest first.
  abbrev pub IsJustified : List (Call Body) → Type 0
  IsJustified [] = Unit {0}
  IsJustified (get name ∷ before) = (name ≡ builder.name owner) × IsJustified before
  IsJustified (delete name ∷ before) =
      (name ≡ builder.name owner)
      × ((r : Object Body) × Saw r before
          × ((builder.is_needed owner ≡ false) ⊎ (builder.is_recreation_needed owner r ≡ true)))
      × IsJustified before
  IsJustified (patch name params resource ∷ before) =
      (name ≡ builder.name owner)
      × (params ≡ patch_params)
      × (builder.is_needed owner ≡ true)
      × ((existing : Object Body) × (new : Object Body) × Saw existing before
          × (builder.is_recreation_needed owner existing ≡ false)
          × (builder.build owner (builder.name owner) (some existing) context ≡ ok new)
          × Carries existing new resource)
      × IsJustified before
  IsJustified (create params resource ∷ before) =
      (params ≡ post_params)
      × (builder.is_needed owner ≡ true)
      × IsCleared before
      × ((new : Object Body) × (reference : OwnerReference) × (builder.build owner
              (builder.name owner) none context
            ≡ ok new)
          × (builder.controller_owner_ref owner ≡ some reference)
          × IsOwnedBy reference new resource)
      × IsJustified before

  -- What is known of the resource that a reconciliation goes on with, after these calls.
  abbrev IsKept : Flow Body → List (Call Body) → Type 0
  IsKept (return result) calls = Unit
  IsKept (go_on none) calls = IsCleared calls
  IsKept (go_on (some existing)) calls =
      Saw existing calls × (builder.is_recreation_needed owner existing ≡ false)

  -- What a reading found.
  abbrev Found : Result Cause (Option (Object Body)) → List (Call Body) → Type 0
  Found (err e) calls = Unit
  Found (ok none) calls = IsCleared calls
  Found (ok (some r)) calls = Saw r calls

  existing_of-Found :
      (reply : Result KubeError (Object Body)) (calls : List (Call Body))
      → server.get_reply calls (builder.name owner) ≡ reply
      → Found (existing_of reply) (get (builder.name owner) ∷ calls)
  unfolding existing_of
  existing_of-Found (ok r) calls e = (refl, e)
  existing_of-Found (err (KubeError.api response)) calls e =
      elim (Bool-cases (nat_eq response.code 404)) [
        | inl missing ↦ rw missing (response, e, ground (arith, missing))
        | inr other ↦ rw other tt
      ]
  existing_of-Found (err (KubeError.other message)) calls e = tt

  after_delete-IsKept :
      (flow : Flow Body) (calls : List (Call Body)) (reply : Result KubeError (Unit {0}))
      → (reply ≡ ok tt → IsKept flow calls)
      → IsKept (after_delete server builder owner context flow reply) calls
  unfolding after_delete
  after_delete-IsKept flow calls (ok tt) k = k refl
  after_delete-IsKept flow calls (err e) k = tt

  check_existing-IsJustified :
      (found : Result Cause (Option (Object Body))) (calls : List (Call Body))
      → Found found calls
      → IsJustified calls
      → IsJustified (check_existing server builder owner context found calls).1
        × IsKept
            (check_existing server builder owner context found calls).0
            (check_existing server builder owner context found calls).1
  unfolding check_existing
  check_existing-IsJustified (err e) calls f h = (h, tt)
  check_existing-IsJustified (ok none) calls f h = (h, f)
  check_existing-IsJustified (ok (some existing)) calls f h =
      elim (Bool-cases (builder.is_needed owner)) [
        | inr unneeded ↦
            rw (unneeded, check_existing)
              (
                (refl, (existing, f, inl unneeded), h),
                after_delete-IsKept (return (ok none)) _ _ (λ deleted. tt),
              )
        | inl needed ↦ elim (Bool-cases (builder.is_recreation_needed owner existing)) [
          | inl recreation ↦
              rw (needed, recreation, check_existing)
                (
                  (refl, (existing, f, inr recreation), h),
                  after_delete-IsKept (go_on none) _ _
                      (λ deleted. (deleted, (existing, f, recreation))),
                )
          | inr keep ↦ rw (needed, keep, check_existing) (h, (f, keep))
        ]
      ]

  write-IsJustified :
      (existing : Option (Object Body)) (built : Result Cause (Object Body))
      (calls : List (Call Body))
      → builder.is_needed owner ≡ true
      → IsKept (go_on existing) calls
      → builder.build owner (builder.name owner) existing context ≡ built
      → IsJustified calls
      → IsJustified (write server builder owner context existing built calls).1
  unfolding write
  write-IsJustified existing (err e) calls needed keep b h = h
  write-IsJustified (some existing) (ok new) calls needed (saw, keep) b h =
      (refl, refl, needed, (existing, new, saw, keep, b, carry_annotations-Carries existing new), h)
  write-IsJustified none (ok new) calls needed cleared b h =
      elim (Option-cases (builder.controller_owner_ref owner)) [
        | inl missing ↦ rw (missing, create_new) h
        | inr (reference, found) ↦
            rw (found, create_new)
              (
                refl,
                needed,
                cleared,
                (new, reference, b, found, set_controller_reference-IsOwnedBy reference new),
                h,
              )
      ]

  build_and_write-IsJustified :
      (flow : Flow Body) (calls : List (Call Body))
      → IsKept flow calls
      → IsJustified calls
      → IsJustified (build_and_write server builder owner context flow calls).1
  unfolding build_and_write
  build_and_write-IsJustified (return result) calls keep h = h
  build_and_write-IsJustified (go_on existing) calls keep h =
      elim (Bool-cases (builder.is_needed owner)) [
        | inr unneeded ↦ rw (unneeded, build_and_write) h
        | inl needed ↦
            rw (needed, build_and_write) (write-IsJustified existing _ calls needed keep refl h)
      ]

  -- Whatever the API server replies, a reconciliation makes only justified calls, all of them on the
  -- resource of the builder's name. It deletes only the resource that it has just read, which is not
  -- needed or has to be made anew. It patches only a needed resource that it has just read and that
  -- needs no recreation, with what `build` gave for it, and with the annotations that it had at the
  -- keys that `build` did not set. It creates only a needed one, just after reading that there is
  -- none or deleting the one that has to be made anew, with what `build` gave and the owner's
  -- controller reference added.
  pub reconcile_builder-IsJustified :
      (calls : List (Call Body))
      → IsJustified calls
      → IsJustified (reconcile_builder server builder owner context calls).1
  unfolding reconcile_builder
  reconcile_builder-IsJustified calls h =
      let found = existing_of-Found (server.get_reply calls (builder.name owner)) calls refl in
      let (h', keep) =
        check_existing-IsJustified (existing_of (server.get_reply calls (builder.name owner)))
          (get (builder.name owner) ∷ calls) found (refl, h) in
      build_and_write-IsJustified _ _ keep h'

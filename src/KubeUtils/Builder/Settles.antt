-- ===== src/KubeUtils/Builder/Settles.antt =====
-- What a reconciliation leaves behind on a server that does what it is asked.
use shulker.Prelude.{
  ◌≡◌, refl, true, false, List, ◌∷◌, Option, none, some, if◌then◌else◌, Option-cases, Bool-cases,
  inl, inr,
}
use shulker.Outcome.{Outcome}
use shulker.Result.{ok, err}
use shulker.Kubernetes.{KubeError, ErrorResponse, OwnerReference, Object}
use shulker.KubeUtils.Builder.Conforms.{Conforms}
use shulker.KubeUtils.Builder.{
  Call, get, delete, patch, create, Api, ResourceBuilder, existing_of, set_controller_reference,
  carry_annotations, patch_params, post_params, check_existing, create_new, write, build_and_write,
  reconcile_builder, reply_of, after_delete, go_on,
}

-- With a builder whose `build` succeeds, and gives `builds existing`.
module _ {Owner Body Context : Type 0} (server : Api Body)
    (builder : ResourceBuilder Owner Body Context) (owner : Owner) (context : Option Context)
    (stored : List (Call Body) → Option (Object Body))
    (apply : Object Body → Object Body → Object Body)
    (conforms : Conforms server (builder.name owner) stored apply)
    (builds : Option (Object Body) → Object Body) (reference : OwnerReference) where
  abbrev created : Object Body
  created = set_controller_reference reference (builds none)

  abbrev updated : Option (Object Body) → Object Body
  updated none = created
  updated (some r) =
      if builder.is_recreation_needed owner r
      then created
      else apply r (carry_annotations r (builds (some r)))

  -- The resource that should be there, given the one that is.
  abbrev desired : Option (Object Body) → Option (Object Body)
  desired existing = if builder.is_needed owner then some (updated existing) else none

  abbrev Builds : Type 0
  Builds =
      (existing : Option (Object Body))
      → builder.build owner (builder.name owner) existing context ≡ ok (builds existing)

  create_settled :
      (calls : List (Call Body))
      → Builds
      → builder.controller_owner_ref owner ≡ some reference
      → builder.is_needed owner ≡ true
      → stored calls ≡ none
      → build_and_write server builder owner context (go_on none) calls
        ≡ (Outcome.ok (ok (some created)), create post_params created ∷ calls)
  unfolding build_and_write write create_new reply_of
  create_settled calls b o needed m = rw (
    needed,
    build_and_write,
    b none,
    write,
    o,
    create_new,
    conforms.create_ok calls created m,
    reply_of,
  )

  patch_settled :
      (calls : List (Call Body)) (r : Object Body)
      → Builds
      → builder.is_needed owner ≡ true
      → stored calls ≡ some r
      → build_and_write server builder owner context (go_on (some r)) calls ≡ (
        Outcome.ok (ok (some (apply r (carry_annotations r (builds (some r)))))),
        patch (builder.name owner) patch_params (carry_annotations r (builds (some r))) ∷ calls,
      )
  unfolding build_and_write write reply_of
  patch_settled calls r b needed m = rw (
    needed,
    build_and_write,
    b (some r),
    write,
    conforms.patch_ok calls r (carry_annotations r (builds (some r))) m,
    reply_of,
  )

  existing_of_missing :
      (e : ErrorResponse)
      → e.code ≡ 404
      → existing_of {Body = Body} (err (KubeError.api e)) ≡ ok none
  unfolding existing_of
  existing_of_missing e h = rw h

  reconcile_missing :
      (calls : List (Call Body))
      → stored calls ≡ none
      → reconcile_builder server builder owner context calls
        ≡ build_and_write server builder owner context
            (go_on none)
            (get (builder.name owner) ∷ calls)
  unfolding reconcile_builder check_existing
  reconcile_missing calls m = rw (
    conforms.get_missing calls m,
    existing_of_missing conforms.missing conforms.missing_code,
    check_existing,
  )

  reconcile_unneeded :
      (calls : List (Call Body)) (r : Object Body)
      → stored calls ≡ some r
      → builder.is_needed owner ≡ false
      → reconcile_builder server builder owner context calls
        ≡ (Outcome.ok (ok none), delete (builder.name owner) ∷ get (builder.name owner) ∷ calls)
  unfolding reconcile_builder check_existing existing_of after_delete build_and_write
  reconcile_unneeded calls r s unneeded = rw (
    conforms.get_stored calls r s,
    existing_of,
    check_existing,
    unneeded,
    conforms.delete_ok (get (builder.name owner) ∷ calls),
    after_delete,
    build_and_write,
  )

  reconcile_anew :
      (calls : List (Call Body)) (r : Object Body)
      → stored calls ≡ some r
      → builder.is_needed owner ≡ true
      → builder.is_recreation_needed owner r ≡ true
      → reconcile_builder server builder owner context calls
        ≡ build_and_write server builder owner context
            (go_on none)
            (delete (builder.name owner) ∷ get (builder.name owner) ∷ calls)
  unfolding reconcile_builder check_existing existing_of after_delete
  reconcile_anew calls r s needed anew = rw (
    conforms.get_stored calls r s,
    existing_of,
    check_existing,
    needed,
    anew,
    conforms.delete_ok (get (builder.name owner) ∷ calls),
    after_delete,
    needed,
  )

  reconcile_kept :
      (calls : List (Call Body)) (r : Object Body)
      → stored calls ≡ some r
      → builder.is_needed owner ≡ true
      → builder.is_recreation_needed owner r ≡ false
      → reconcile_builder server builder owner context calls
        ≡ build_and_write server builder owner context
            (go_on (some r))
            (get (builder.name owner) ∷ calls)
  unfolding reconcile_builder check_existing existing_of
  reconcile_kept calls r s needed keep =
      rw (conforms.get_stored calls r s, existing_of, check_existing, needed, keep, needed)

  -- With a builder whose `build` succeeds and an owner that has a reference, on a server that does
  -- what it is asked, a reconciliation leaves behind, and returns, the resource that is desired: no
  -- resource if it is not needed, else the built one with the owner's reference if there was none
  -- or it needed recreation, else the existing one with the built one applied, which carries the
  -- annotations of the existing one over.
  pub reconcile_builder_settles :
      (calls : List (Call Body))
      → Builds
      → builder.controller_owner_ref owner ≡ some reference
      → ((reconcile_builder server builder owner context calls).0
          ≡ Outcome.ok (ok (desired (stored calls))))
        × (stored (reconcile_builder server builder owner context calls).1 ≡ desired (stored calls))
  unfolding build_and_write
  reconcile_builder_settles calls b o =
      let looked = get (builder.name owner) ∷ calls in
      let gone = conforms.stored-delete looked in
      elim (Option-cases (stored calls)) [
        | inl m ↦
            let m' : stored looked ≡ none = rw (conforms.stored-get calls, m) in
            elim (Bool-cases (builder.is_needed owner)) [
              | inl needed ↦
                  rw
                    (
                      reconcile_missing calls m,
                      create_settled looked b o needed m',
                      m,
                      needed,
                      conforms.stored-create looked created m',
                    )
                    (refl, refl)
              | inr unneeded ↦
                  rw (reconcile_missing calls m, unneeded, build_and_write, m') (refl, refl)
            ]
        | inr (r, s) ↦
            let s' : stored looked ≡ some r = rw (conforms.stored-get calls, s) in
            elim (Bool-cases (builder.is_needed owner)) [
              | inr unneeded ↦
                  rw (reconcile_unneeded calls r s unneeded, s, unneeded, gone) (refl, refl)
              | inl needed ↦ elim (Bool-cases (builder.is_recreation_needed owner r)) [
                | inl anew ↦
                    rw
                      (
                        reconcile_anew calls r s needed anew,
                        create_settled _ b o needed gone,
                        s,
                        needed,
                        anew,
                        conforms.stored-create _ created gone,
                      )
                      (refl, refl)
                | inr keep ↦
                    rw
                      (
                        reconcile_kept calls r s needed keep,
                        patch_settled looked r b needed s',
                        s,
                        needed,
                        keep,
                        conforms.stored-patch looked r _ s',
                      )
                      (refl, refl)
              ]
            ]
      ]

-- ===== src/KubeUtils/Lease/Trace.antt =====
-- `try_acquire`: what it does whatever the API server and the clock reply.
use shulker.Prelude.{
  ℕ, zero, suc, ◌≡◌, refl, String, Bool, true, false, List, [], ◌∷◌, Option, none, some, Bool-cases,
  inl, inr, nat_eq, arith,
}
use shulker.Outcome.{Outcome, ok, panicked, running}
use shulker.Result.{Result}
use shulker.Kubernetes.{KubeError, ErrorResponse}
use shulker.KubeUtils.LeaseData.{
  Lease, LeaseSpec, LeaseLock, Event, get, create, patch, wait, World, new_lease, take_over,
  wait_time,
}
use shulker.KubeUtils.Lease.{
  Round, finished, again, is_expired, with_version, finish, create_lease, take_lease,
  wait_for_lease, on_lease, on_reply, attempt, next_round, try_acquire,
}

module _ (world : World) (lock : LeaseLock) where
  -- Histories, newest first, in which the lease is only written after a reading that allows it: it
  -- is created after it was not found, and taken over after it was found and had expired by then.
  pub data IsFair : List Event → Type 0 where
    start : IsFair []
    looked : {events : List Event} → IsFair events → IsFair (get lock.name ∷ events)
    created :
        {events : List Event} (e : ErrorResponse)
        → IsFair events
        → world.get_reply events lock.name ≡ Result.err (KubeError.api e)
        → e.code ≡ 404
        → IsFair
            (create (new_lease lock (world.now (get lock.name ∷ events))) ∷ get lock.name ∷ events)
    taken :
        {events : List Event} (lease : Lease) (spec : LeaseSpec)
        → IsFair events
        → world.get_reply events lock.name ≡ Result.ok lease
        → lease.spec ≡ some spec
        → is_expired (world.now (get lock.name ∷ events)) lease ≡ ok true
        → IsFair (
            patch lock.name lock.owned_patch_params
              (take_over lock (world.now (get lock.name ∷ events)) lease spec)
            ∷ get lock.name
            ∷ events)
    waited :
        {events : List Event} (lease : Lease)
        → IsFair events
        → world.get_reply events lock.name ≡ Result.ok lease
        → is_expired (world.now (get lock.name ∷ events)) lease ≡ ok false
        → IsFair (wait (wait_time lease.spec) ∷ get lock.name ∷ events)

  -- The write that made the lock the holder: the last event, which the server accepted, and whose
  -- version the lock keeps.
  abbrev pub Wrote : LeaseLock → List Event → Type 0
  Wrote held [] = ⊥
  Wrote held (get name ∷ events) = ⊥
  Wrote held (wait seconds ∷ events) = ⊥
  Wrote held (create lease ∷ events) =
      (written : Lease) × (world.create_reply events lease ≡ Result.ok written)
      × (held ≡ record lock { current_resource_version = written.metadata.resource_version })
  Wrote held (patch name params lease ∷ events) =
      (written : Lease) × (world.patch_reply events name params lease ≡ Result.ok written)
      × (held ≡ record lock { current_resource_version = written.metadata.resource_version })

  abbrev pub HoldsIfOk : Outcome (Result String LeaseLock) → List Event → Type 0
  HoldsIfOk (ok (Result.ok held)) events = Wrote held events
  HoldsIfOk (ok (Result.err e)) events = Unit
  HoldsIfOk panicked events = Unit
  HoldsIfOk running events = Unit

  -- What is shown of a round.
  abbrev IsFairRound : Round × List Event → Type 0
  IsFairRound (finished outcome, events) = IsFair events × HoldsIfOk outcome events
  IsFairRound (again, events) = IsFair events

  finish_create :
      (lease : Lease) (events : List Event) (reply : Result KubeError Lease)
      → IsFair (create lease ∷ events)
      → world.create_reply events lease ≡ reply
      → IsFairRound (finish lock reply, create lease ∷ events)
  unfolding finish with_version
  finish_create lease events (Result.ok written) h e = (h, (written, e, refl))
  finish_create lease events (Result.err error) h e = (h, tt)

  finish_patch :
      (lease : Lease) (events : List Event) (reply : Result KubeError Lease)
      → IsFair (patch lock.name lock.owned_patch_params lease ∷ events)
      → world.patch_reply events lock.name lock.owned_patch_params lease ≡ reply
      → IsFairRound (finish lock reply, patch lock.name lock.owned_patch_params lease ∷ events)
  unfolding finish with_version
  finish_patch lease events (Result.ok written) h e = (h, (written, e, refl))
  finish_patch lease events (Result.err error) h e = (h, tt)

  take_lease-IsFair :
      (events : List Event) (lease : Lease) (spec : Option LeaseSpec)
      → IsFair events
      → world.get_reply events lock.name ≡ Result.ok lease
      → lease.spec ≡ spec
      → is_expired (world.now (get lock.name ∷ events)) lease ≡ ok true
      → IsFairRound (take_lease world lock lease spec (get lock.name ∷ events))
  unfolding take_lease
  take_lease-IsFair events lease none h found s e = (looked h, tt)
  take_lease-IsFair events lease (some spec) h found s e =
      finish_patch _ _ _ (taken lease spec h found s e) refl

  on_lease-IsFair :
      (events : List Event) (lease : Lease) (expired : Outcome Bool)
      → IsFair events
      → world.get_reply events lock.name ≡ Result.ok lease
      → is_expired (world.now (get lock.name ∷ events)) lease ≡ expired
      → IsFairRound (on_lease world lock lease expired (get lock.name ∷ events))
  unfolding on_lease wait_for_lease
  on_lease-IsFair events lease (ok true) h found e =
      take_lease-IsFair events lease lease.spec h found refl e
  on_lease-IsFair events lease (ok false) h found e =
      elim (Bool-cases (nat_eq (wait_time lease.spec) 0)) [
        | inl zero_wait ↦ rw (zero_wait, wait_for_lease) (looked h, tt)
        | inr positive ↦ rw (positive, wait_for_lease) (waited lease h found e)
      ]
  on_lease-IsFair events lease panicked h found e = (looked h, tt)
  on_lease-IsFair events lease running h found e = (looked h, tt)

  on_reply-IsFair :
      (events : List Event) (reply : Result KubeError Lease)
      → IsFair events
      → world.get_reply events lock.name ≡ reply
      → IsFairRound (on_reply world lock reply (get lock.name ∷ events))
  unfolding on_reply create_lease
  on_reply-IsFair events (Result.ok lease) h found = on_lease-IsFair events lease _ h found refl
  on_reply-IsFair events (Result.err (KubeError.other e)) h found = (looked h, tt)
  on_reply-IsFair events (Result.err (KubeError.api e)) h found =
      elim (Bool-cases (nat_eq e.code 404)) [
        | inl missing ↦
            rw (missing, on_reply)
              (finish_create _ _ _ (created e h found (ground (arith, missing))) refl)
        | inr refused ↦ rw (refused, on_reply) (looked h, tt)
      ]

  attempt-IsFair : (events : List Event) → IsFair events → IsFairRound (attempt world lock events)
  unfolding attempt
  attempt-IsFair events h = on_reply-IsFair events _ h refl

  next_round-IsFair :
      (round : Round × List Event)
      (next : List Event → Outcome (Result String LeaseLock) × List Event)
      → IsFairRound round
      → ((events : List Event)
          → IsFair events
          → IsFair (next events).1 × HoldsIfOk (next events).0 (next events).1)
      → IsFair (next_round round next).1
        × HoldsIfOk (next_round round next).0 (next_round round next).1
  next_round-IsFair (finished outcome, events) next f rest = f
  next_round-IsFair (again, events) next f rest = rest events f

  -- Whatever the API server and the clock say, and whenever it stops, `try_acquire` creates the
  -- lease only right after it was not found, and takes it over only right after it was found and
  -- had expired by then; and it succeeds only if its last event is such a write, which the server
  -- accepted, and of which the lock keeps the version.
  pub try_acquire-IsFair :
      (fuel : ℕ) (events : List Event)
      → IsFair events
      → IsFair (try_acquire world fuel lock events).1
        × HoldsIfOk (try_acquire world fuel lock events).0 (try_acquire world fuel lock events).1
  unfolding try_acquire
  try_acquire-IsFair zero events h = (h, tt)
  try_acquire-IsFair (suc fuel) events h =
      next_round-IsFair (attempt world lock events) (try_acquire world fuel lock)
        (attempt-IsFair events h) (try_acquire-IsFair fuel)

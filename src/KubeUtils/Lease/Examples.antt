-- ===== src/KubeUtils/Lease/Examples.antt =====
-- Tests of the lease, and witnesses of its theorems.
use shulker.Prelude.{
  ◌↔◌, ◌⊎◌, ◌<◌, ℕ, ◌+◌, arith, ◌≡◌, refl, inl, true, String, List, [], ◌∷◌, Option, none, some,
}
use shulker.Outcome.{ok}
use shulker.Result.{Result}
use shulker.Kubernetes.{KubeError, ErrorResponse}
use shulker.KubeUtils.LeaseData.{
  Lease, LeaseSpec, LeaseLock, Event, get, create, patch, wait, World, empty_spec, new_lease,
  take_over, release, renewal,
}
use shulker.KubeUtils.Lease.{
  again, is_expired, is_past, is_past_either, attempt, try_acquire, on_reply, create_lease, finish,
  with_version, on_lease, take_lease, wait_for_lease, try_renew, try_release,
}
use shulker.KubeUtils.Lease.Laws.{attempt_held, sign_of_life, is_expired_iff, try_acquire_abandoned}
use shulker.KubeUtils.Lease.Trace.{IsFair, start, HoldsIfOk, try_acquire-IsFair}
use shulker.KubeUtils.Lease.Hold.{tick, cancelled, hold, here, Stands, hold-Stands}

abbrev lock_of : String → LeaseLock
lock_of identity = record {
  namespace = "default";
  name = "addon";
  holder_identity = identity;
  owned_patch_params = record { field_manager = some "addon-controller"; force = true };
  current_resource_version = none;
}

-- The clock moves by a second with each event, and by the seconds of a wait.
abbrev clock : List Event → ℕ
clock [] = 100
clock (get name ∷ events) = clock events + 1
clock (create lease ∷ events) = clock events + 1
clock (patch name params lease ∷ events) = clock events + 1
clock (wait seconds ∷ events) = clock events + seconds + 1

abbrev versioned : Lease → Lease
versioned lease = record lease {
  metadata = record (lease.metadata) { resource_version = some "2" };
}

abbrev missing : ErrorResponse
missing = record { code = 404; message = "not found" }

-- A server on which every reading finds one lease, or none, and which accepts writes.
abbrev world_of : Option Lease → World
world_of lease = record {
  now = clock;
  get_reply = λ events name. elim lease [
    | some l ↦ Result.ok l
    | none ↦ Result.err (KubeError.api missing)
  ];
  create_reply = λ events l. Result.ok (versioned l);
  patch_reply = λ events name params l. Result.ok (versioned l);
}

abbrev lock_a : LeaseLock
lock_a = lock_of "a"

abbrev lock_b : LeaseLock
lock_b = lock_of "b"

-- What b left when it was last seen 5 seconds before.
abbrev left_by_b : Lease
left_by_b = new_lease lock_b 95

abbrev spec_of_b : LeaseSpec
spec_of_b = record empty_spec {
  acquire_time = some 95;
  lease_duration_seconds = some 15;
  holder_identity = some "b";
  lease_transitions = some 1;
}

acquires_after_a_wait : try_acquire (world_of (some left_by_b)) 2 lock_a [] ≡ (
  ok (Result.ok (record lock_a { current_resource_version = some "2" })),
  patch "addon" lock_a.owned_patch_params (take_over lock_a 118 left_by_b spec_of_b)
      ∷ get "addon"
      ∷ wait 15
      ∷ get "addon"
      ∷ [],
)
unfolding try_acquire attempt on_reply is_expired is_past_either is_past on_lease take_lease
    wait_for_lease finish with_version
acquires_after_a_wait = refl

creates_when_missing :
    (try_acquire (world_of none) 1 lock_a []).1 ≡ create (new_lease lock_a 101) ∷ get "addon" ∷ []
unfolding try_acquire attempt on_reply create_lease finish with_version
creates_when_missing = refl

renews_and_releases : hold (world_of none) (tick ∷ cancelled ∷ []) lock_a [] ≡ (
  ok tt,
  patch "addon" lock_a.owned_patch_params
        (release (record lock_a { current_resource_version = some "2" }))
      ∷ patch "addon" lock_a.owned_patch_params (renewal lock_a 100)
      ∷ [],
)
unfolding hold try_renew try_release with_version
renews_and_releases = refl

attempt_held_example :
    attempt (world_of (some left_by_b)) lock_a [] ≡ (again, wait 15 ∷ get "addon" ∷ [])
attempt_held_example =
    attempt_held (world_of (some left_by_b)) lock_a lock_b 95 left_by_b spec_of_b left_by_b []
      (inl refl) refl (omega arith)

is_expired_iff_example : (is_expired 120 left_by_b ≡ ok true) ↔ (
    (sign_of_life spec_of_b ≡ none)
    ⊎ ((t : ℕ) × (sign_of_life spec_of_b ≡ some t) × (t + 15 < 120)))
is_expired_iff_example = is_expired_iff 120 left_by_b spec_of_b 15 refl refl (omega arith)

try_acquire_abandoned_example :
    (held : LeaseLock) × (events' : List Event) × (try_acquire
        (world_of (some left_by_b))
        2
        lock_a
        []
      ≡ (ok (Result.ok held), events'))
try_acquire_abandoned_example =
    try_acquire_abandoned (world_of (some left_by_b)) lock_a 0 [] left_by_b spec_of_b 15 95
      (λ events lease. versioned lease) (λ events. refl) refl refl (omega arith) (omega arith) refl
      (omega arith) (omega arith) (λ events lease. refl)

try_acquire-IsFair_example :
    IsFair
      (world_of (some left_by_b))
      lock_a
      (try_acquire (world_of (some left_by_b)) 2 lock_a []).1
    × HoldsIfOk
        (world_of (some left_by_b))
        lock_a
        (try_acquire (world_of (some left_by_b)) 2 lock_a []).0
        (try_acquire (world_of (some left_by_b)) 2 lock_a []).1
try_acquire-IsFair_example = try_acquire-IsFair (world_of (some left_by_b)) lock_a 2 [] start

hold-Stands_example :
    Stands
      (world_of none)
      "addon"
      lock_a.owned_patch_params
      []
      (hold (world_of none) (tick ∷ cancelled ∷ []) lock_a [])
hold-Stands_example = hold-Stands (world_of none) [] (tick ∷ cancelled ∷ []) lock_a [] (here none)

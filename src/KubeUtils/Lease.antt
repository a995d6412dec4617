-- ===== src/KubeUtils/Lease.antt =====
-- packages/shulker-kube-utils/src/lease.rs: the lease that makes one replica the active one, over the
-- data of KubeUtils/LeaseData. `LeaseLock::new` only fills the lock in, from the host's name and a
-- random suffix, which are arguments here.
pub mod Laws
pub mod Trace
pub mod Hold
pub mod Examples
use shulker.Prelude.{
  ℕ, zero, suc, ◌+◌, ◌-◌, ◌%◌, ◌^◌, String, Bool, true, false, List, [], ◌∷◌, Option, none, some,
  ltb, nat_eq, if◌then◌else◌,
}
use shulker.Prelude.Int32.{I32, as_usize}
use shulker.Prelude.Text.{◌⧺◌}
use shulker.Outcome.{Outcome, ok, panicked, running, ◌>>=◌, unwrap}
use shulker.Result.{Result}
use shulker.Kubernetes.{KubeError, ErrorResponse, PatchParams}
use shulker.KubeUtils.LeaseData.{
  lease_duration_seconds, lease_renew_interval_seconds, LeaseMeta, LeaseSpec, Lease, LeaseLock,
  empty_meta, empty_spec, Event, get, create, patch, wait, World, new_lease, next_transition,
  take_over_spec, take_over, wait_time, renewal, release,
}

abbrev new : String → String → String → Result String String → String → Result String LeaseLock
new default_namespace name controller_name (Result.err e) suffix = Result.err e
new default_namespace name controller_name (Result.ok host) suffix = Result.ok (record {
  namespace = default_namespace;
  name = name;
  holder_identity = host ⧺ "-" ⧺ suffix;
  owned_patch_params = record { field_manager = some controller_name; force = true };
  current_resource_version = none;
})

-- `utc_now > time + duration` for a signed duration.
unfoldable pub is_past : ℕ → ℕ → I32 → Bool
is_past now time duration =
    if ltb duration (2 ^ 31)
    then ltb (time + duration) now
    else ltb time (now + (2 ^ 32 - duration))

unfoldable pub is_past_either : ℕ → Option ℕ → Option ℕ → I32 → Bool
unfolding is_past
is_past_either now (some renew_time) acquire_time duration = is_past now renew_time duration
is_past_either now none (some acquire_time) duration = is_past now acquire_time duration
is_past_either now none none duration = true

pub is_expired : ℕ → Lease → Outcome Bool
unfolding is_past_either
is_expired now lease = do
  spec ← unwrap lease.spec
  duration ← unwrap spec.lease_duration_seconds
  ok (is_past_either now spec.renew_time spec.acquire_time duration)

abbrev failed_to_acquire : String
failed_to_acquire = "failed to acquire lease"

-- How a round of the loop of `try_acquire` ends: with a result, which is the lock with the version
-- it now holds, or in another round.
pub data Round : Type 0 where
  finished : Outcome (Result String LeaseLock) → Round
  again : Round

unfoldable pub with_version : LeaseLock → Result KubeError Lease → Outcome LeaseLock
with_version lock (Result.err e) = panicked
with_version lock (Result.ok lease) =
    ok (record lock { current_resource_version = lease.metadata.resource_version })

unfoldable pub finish : LeaseLock → Result KubeError Lease → Round
unfolding with_version
finish lock reply = finished (do held ← with_version lock reply; ok (Result.ok held))

abbrev pub next_round :
    Round × List Event
    → (List Event → Outcome (Result String LeaseLock) × List Event)
    → Outcome (Result String LeaseLock) × List Event
next_round (finished outcome, events) next = (outcome, events)
next_round (again, events) next = next events

module _ (world : World) where
  pub create_lease : LeaseLock → List Event → Round × List Event
  create_lease lock events =
      let lease = new_lease lock (world.now events) in
      (finish lock (world.create_reply events lease), create lease ∷ events)

  pub take_lease : LeaseLock → Lease → Option LeaseSpec → List Event → Round × List Event
  take_lease lock lease none events = (finished panicked, events)
  take_lease lock lease (some spec) events =
      let taken = take_over lock (world.now events) lease spec in
      (
        finish lock (world.patch_reply events lock.name lock.owned_patch_params taken),
        patch lock.name lock.owned_patch_params taken ∷ events,
      )

  -- `tokio::time::interval` panics for a period of 0.
  pub wait_for_lease : ℕ → List Event → Round × List Event
  wait_for_lease seconds events =
      if nat_eq seconds 0 then (finished panicked, events) else (again, wait seconds ∷ events)

  pub on_lease : LeaseLock → Lease → Outcome Bool → List Event → Round × List Event
  unfolding take_lease wait_for_lease
  on_lease lock lease (ok true) events = take_lease lock lease lease.spec events
  on_lease lock lease (ok false) events = wait_for_lease (wait_time lease.spec) events
  on_lease lock lease panicked events = (finished panicked, events)
  on_lease lock lease running events = (finished running, events)

  pub on_reply : LeaseLock → Result KubeError Lease → List Event → Round × List Event
  unfolding create_lease on_lease is_expired
  on_reply lock (Result.ok lease) events =
      on_lease lock lease (is_expired (world.now events) lease) events
  on_reply lock (Result.err (KubeError.api e)) events =
      if nat_eq e.code 404
      then create_lease lock events
      else (finished (ok (Result.err failed_to_acquire)), events)
  on_reply lock (Result.err (KubeError.other e)) events =
      (finished (ok (Result.err failed_to_acquire)), events)

  -- One round of the loop.
  pub attempt : LeaseLock → List Event → Round × List Event
  unfolding on_reply
  attempt lock events = on_reply lock (world.get_reply events lock.name) (get lock.name ∷ events)

  pub try_acquire : ℕ → LeaseLock → List Event → Outcome (Result String LeaseLock) × List Event
  try_acquire zero lock events = (running, events)
  try_acquire (suc fuel) lock events = next_round (attempt lock events) (try_acquire fuel lock)

  pub try_renew : LeaseLock → List Event → Outcome LeaseLock × List Event
  unfolding with_version
  try_renew lock events =
      let lease = renewal lock (world.now events) in
      (
        with_version lock (world.patch_reply events lock.name lock.owned_patch_params lease),
        patch lock.name lock.owned_patch_params lease ∷ events,
      )

  pub try_release : LeaseLock → List Event → Outcome LeaseLock × List Event
  unfolding with_version
  try_release lock events = (
    with_version lock (world.patch_reply events lock.name lock.owned_patch_params (release lock)),
    patch lock.name lock.owned_patch_params (release lock) ∷ events,
  )

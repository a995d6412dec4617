-- ===== src/KubeUtils/Lease/Hold.antt =====
-- `try_acquire_and_hold`: the lease is acquired, then a task renews it until it is cancelled, and
-- releases it.
use shulker.Prelude.{ℕ, ◌≡◌, refl, String, List, [], ◌∷◌, Option}
use shulker.Outcome.{Outcome, ok, panicked, running}
use shulker.Result.{Result}
use shulker.Kubernetes.{KubeError, PatchParams}
use shulker.KubeUtils.LeaseData.{Lease, LeaseLock, Event, patch, World, renewal, release}
use shulker.KubeUtils.Lease.{with_version, try_acquire, try_renew, try_release}

-- What the `select!` of the task wakes up for: its interval or the cancellation.
pub data Signal : Type 0 where
  tick : Signal
  cancelled : Signal

abbrev and_then_hold :
    Outcome LeaseLock × List Event
    → (LeaseLock → List Event → Outcome (Unit {0}) × List Event)
    → Outcome (Unit {0}) × List Event
and_then_hold (ok lock, events) next = next lock events
and_then_hold (panicked, events) next = (panicked, events)
and_then_hold (running, events) next = (running, events)

module _ (world : World) where
  -- The task, still running when all signals are handled.
  unfoldable pub hold : List Signal → LeaseLock → List Event → Outcome (Unit {0}) × List Event
  hold [] lock events = (running, events)
  hold (tick ∷ signals) lock events = and_then_hold (try_renew world lock events) (hold signals)
  hold (cancelled ∷ signals) lock events =
      and_then_hold (try_release world lock events) (λ lock' events'. (ok tt, events'))

  -- The error that keeps the task from starting, or how the task goes.
  try_acquire_and_hold :
      ℕ
      → List Signal
      → LeaseLock
      → List Event
      → Outcome (Result String (Outcome (Unit {0}))) × List Event
  try_acquire_and_hold fuel signals lock events =
      let (acquired, events') = try_acquire world fuel lock events in
      elim acquired [
        | ok result ↦ elim result [
          | Result.ok held ↦
              let (task, events'') = hold signals held events' in (ok (Result.ok task), events'')
          | Result.err e ↦ (ok (Result.err e), events')
        ]
        | panicked ↦ (panicked, events')
        | running ↦ (running, events')
      ]

-- What the task writes, whatever the server replies.
module _ (world : World) (name : String) (params : PatchParams) (start : List Event) where
  -- Histories, newest first, of accepted writes, each with the version that the server gave in its
  -- reply to the write before: `IsChained v es` for such a history from `start` on, whose last reply
  -- has version `v`.
  pub data IsChained : Option String → List Event → Type 0 where
    here : (version : Option String) → IsChained version start
    next :
        {version : Option String} {events : List Event} (lease written : Lease)
        → IsChained version events
        → lease.metadata.resource_version ≡ version
        → world.patch_reply events name params lease ≡ Result.ok written
        → IsChained written.metadata.resource_version (patch name params lease ∷ events)

  -- How the task stands, and the history it leaves: it waits after accepted writes; it is done after
  -- an accepted release; or it panicked at the first write that was refused.
  abbrev pub Stands : Outcome (Unit {0}) × List Event → Type 0
  Stands (running, events) = (version : Option String) × IsChained version events
  Stands (ok done, events) =
      (lock : LeaseLock) × (before : List Event) × (written : Lease) × (events
        ≡ patch name params (release lock) ∷ before)
      × IsChained lock.current_resource_version before
      × (world.patch_reply before name params (release lock) ≡ Result.ok written)
  Stands (panicked, events) =
      (lease : Lease) × (before : List Event) × (e : KubeError) × (events
        ≡ patch name params lease ∷ before)
      × IsChained lease.metadata.resource_version before
      × (world.patch_reply before name params lease ≡ Result.err e)

renewed-Stands :
    (world : World) (start : List Event) (signals : List Signal) (lock : LeaseLock)
    (events : List Event) (lease : Lease) (reply : Result KubeError Lease)
    → ((held : LeaseLock) (events' : List Event)
        → IsChained world held.name held.owned_patch_params start held.current_resource_version
            events'
        → Stands world held.name held.owned_patch_params start (hold world signals held events'))
    → IsChained world lock.name lock.owned_patch_params start lease.metadata.resource_version events
    → world.patch_reply events lock.name lock.owned_patch_params lease ≡ reply
    → Stands world lock.name lock.owned_patch_params start (
        and_then_hold
          (with_version lock reply, patch lock.name lock.owned_patch_params lease ∷ events)
          (hold world signals))
unfolding with_version
renewed-Stands world start signals lock events lease (Result.ok written) rest h e =
    rest (record lock { current_resource_version = written.metadata.resource_version }) _
      (next lease written h refl e)
renewed-Stands world start signals lock events lease (Result.err error) rest h e =
    (lease, events, error, refl, h, e)

released-Stands :
    (world : World) (start : List Event) (lock : LeaseLock) (events : List Event)
    (reply : Result KubeError Lease)
    → IsChained world lock.name lock.owned_patch_params start lock.current_resource_version events
    → world.patch_reply events lock.name lock.owned_patch_params (release lock) ≡ reply
    → Stands world lock.name lock.owned_patch_params start (
        and_then_hold
          (with_version lock reply, patch lock.name lock.owned_patch_params (release lock) ∷ events)
          (λ lock' events'. (ok tt, events')))
unfolding with_version
released-Stands world start lock events (Result.ok written) h e =
    (lock, events, written, refl, h, e)
released-Stands world start lock events (Result.err error) h e =
    (release lock, events, error, refl, h, e)

-- The task only writes the lease of its lock, under the lock's field manager, and each write carries
-- the version that the server replied to the write before, the first one that of the lock. While it
-- is still running all its writes were accepted; it is done only when its last write was a release
-- that was accepted; and it panics only at a write that was refused, which is its last.
pub hold-Stands :
    (world : World) (start : List Event) (signals : List Signal) (lock : LeaseLock)
    (events : List Event)
    → IsChained world lock.name lock.owned_patch_params start lock.current_resource_version events
    → Stands world lock.name lock.owned_patch_params start (hold world signals lock events)
unfolding hold try_renew try_release
hold-Stands world start [] lock events h = (lock.current_resource_version, h)
hold-Stands world start (tick ∷ signals) lock events h =
    renewed-Stands world start signals lock events (renewal lock (world.now events)) _
      (hold-Stands world start signals) h refl
hold-Stands world start (cancelled ∷ signals) lock events h =
    released-Stands world start lock events _ h refl

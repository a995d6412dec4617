-- ===== src/Matchmaking/Reconciler.antt =====
-- packages/shulker-addon-matchmaking/src/reconcilers/matchmaking_queue/mod.rs: keeping the registry
-- in step with the MatchmakingQueue resources. The registry is passed on; the result says when the
-- controller calls again.
pub mod Laws
pub mod Examples
use shulker.Prelude.{ℕ, ◌*◌, String, Option, none, some}
use shulker.Outcome.{Outcome, ok, ◌>>=◌, unwrap}
use shulker.Result.{Result}
use shulker.OpenMatch.{Codec}
use shulker.Matchmaking.Queues.{
  MatchmakingQueue, QueueRegistry, RegistryError, register_queue, unregister_queue,
}

-- `Action`: when the controller calls the reconciler again, with the seconds to wait.
pub data Action : Type 0 where
  requeue : ℕ → Action
  await_change : Action

pub data ReconcilerError : Type 0 where
  failed_to_register_queue : RegistryError → ReconcilerError

abbrev registered :
    {Bytes : Type 0}
    → QueueRegistry Bytes × Result RegistryError (Unit {0})
    → QueueRegistry Bytes × Result ReconcilerError Action
registered (registry, Result.ok done) = (registry, Result.ok (requeue (5 * 60)))
registered (registry, Result.err e) = (registry, Result.err (failed_to_register_queue e))

pub cleanup :
    {Bytes : Type 0}
    → QueueRegistry Bytes
    → MatchmakingQueue
    → QueueRegistry Bytes × Result ReconcilerError Action
cleanup registry queue = (unregister_queue registry queue, Result.ok await_change)

pub reconcile :
    {Bytes : Type 0}
    → Codec Bytes
    → QueueRegistry Bytes
    → MatchmakingQueue
    → Outcome (QueueRegistry Bytes × Result ReconcilerError Action)
unfolding cleanup
reconcile codec registry queue = do
  ns ← unwrap queue.namespace
  elim (queue.deletion_timestamp) [
    | none ↦ do r ← register_queue codec registry queue; ok (registered r)
    | some time ↦ ok (cleanup registry queue)
  ]

error_policy : ReconcilerError → Action
error_policy error = requeue 5

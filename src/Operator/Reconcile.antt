-- ===== src/Operator/Reconcile.antt =====
-- packages/shulker-operator/src/reconcilers: what the reconcilers do, call after call (mod.rs,
-- cluster_ref.rs and the mod.rs of each of the four). The replies to the calls are functions of the
-- calls before, newest first.
pub mod Replicas
pub mod Cluster
pub mod Fleet
pub mod Server
pub mod Laws
pub mod Trace
pub mod ServerLaws
pub mod FleetLaws
pub mod Examples
use shulker.Prelude.{ℕ, ◌*◌, String, List, ◌∷◌}
use shulker.Outcome.{Outcome, ok, panicked, running}
use shulker.Result.{Result, err}
use shulker.Kubernetes.{KubeError}
use shulker.KubeUtils.Builder.{BuilderReconcilerError}
use shulker.Matchmaking.Reconciler.{Action, requeue}

-- The error of a finalizer keeps the error of the reconciler in it.
pub data ReconcilerError : Type 0 where
  finalizer_error : ReconcilerError → ReconcilerError
  invalid_cluster_ref : String → KubeError → ReconcilerError
  builder_error : BuilderReconcilerError → ReconcilerError
  failed_to_delete_stale : KubeError → ReconcilerError

-- A computation that makes calls: what it gives, and the calls with those before.
abbrev pub Run : Type 0 → Type 0 → Type 0
Run Step A = List Step → Outcome (Result ReconcilerError A) × List Step

abbrev pub Replies : Type 0 → Type 0 → Type 0
Replies Step A = List Step → Outcome (Result ReconcilerError A)

module _ {Step A B : Type 0} where
  -- The rest of a computation, after a reply.
  unfoldable pub on_reply : Outcome (Result ReconcilerError A) → (A → Run Step B) → Run Step B
  on_reply (ok (Result.ok value)) next calls = next value calls
  on_reply (ok (err e)) next calls = (ok (err e), calls)
  on_reply panicked next calls = (panicked, calls)
  on_reply running next calls = (running, calls)

  -- One call, with `?`.
  unfoldable pub call : Step → Replies Step A → (A → Run Step B) → Run Step B
  unfolding on_reply
  call step replies next calls = on_reply (replies calls) next (step ∷ calls)

abbrev pub finished : {Step : Type 0} → Action → Run Step Action
finished action calls = (ok (Result.ok action), calls)

-- Five minutes.
abbrev pub requeue_interval : ℕ
requeue_interval = 5 * 60

error_policy : ReconcilerError → Action
error_policy error = requeue 5

-- ===== src/Operator/Reconcile/Cluster.antt =====
-- packages/shulker-operator/src/reconcilers/minecraft_cluster/mod.rs: the reconciler of a cluster
-- brings its resources up to date one after the other.
use shulker.Prelude.{List, [], ◌∷◌}
use shulker.Result.{Result, map_err}
use shulker.KubeUtils.Builder.{BuilderReconcilerError}
use shulker.Outcome.{Outcome, panicked, running}
use shulker.Matchmaking.Reconciler.{Action, requeue, await_change}
use shulker.Operator.Reconcile.{
  ReconcilerError, builder_error, finalizer_error, Run, call, finished, requeue_interval,
}

-- A call of `reconcile_builder`, by the builder.
pub data Builder : Type 0 where
  forwarding_secret headless_service proxy_service_account proxy_role proxy_role_binding
        minecraft_server_service_account minecraft_server_role minecraft_server_role_binding
        redis_service redis_stateful_set external_servers_config_map :
      Builder

-- The reply of `reconcile_builder`, with its error as the reconciler's.
abbrev pub of_builder :
    {A : Type 0} → Outcome (Result BuilderReconcilerError A) → Outcome (Result ReconcilerError A)
of_builder (Outcome.ok result) = Outcome.ok (map_err builder_error result)
of_builder panicked = panicked
of_builder running = running

abbrev pub BuilderReplies : Type 0
BuilderReplies = Builder → List Builder → Outcome (Result BuilderReconcilerError (Unit {0}))

abbrev pub builders : List Builder
builders =
    forwarding_secret ∷ headless_service ∷ proxy_service_account ∷ proxy_role ∷ proxy_role_binding
    ∷ minecraft_server_service_account ∷ minecraft_server_role ∷ minecraft_server_role_binding
    ∷ redis_service ∷ redis_stateful_set ∷ external_servers_config_map ∷ []

unfoldable pub reconcile_each : BuilderReplies → List Builder → Run Builder Action
unfolding call
reconcile_each replies [] = finished (requeue requeue_interval)
reconcile_each replies (builder ∷ rest) =
    call builder (λ calls. of_builder (replies builder calls)) (λ done. reconcile_each replies rest)

unfoldable pub reconcile_cluster : BuilderReplies → Run Builder Action
unfolding reconcile_each
reconcile_cluster replies = reconcile_each replies builders

-- What the finalizer of the cluster asks for.
pub data FinalizerEvent : Type 0 where
  apply cleanup : FinalizerEvent

abbrev finalizer_result :
    Outcome (Result ReconcilerError Action) × List Builder
    → Outcome (Result ReconcilerError Action) × List Builder
finalizer_result (Outcome.ok result, calls) = (Outcome.ok (map_err finalizer_error result), calls)
finalizer_result (panicked, calls) = (panicked, calls)
finalizer_result (running, calls) = (running, calls)

unfoldable on_event : BuilderReplies → FinalizerEvent → Run Builder Action
unfolding reconcile_cluster
on_event replies apply calls = finalizer_result (reconcile_cluster replies calls)
on_event replies cleanup calls = finalizer_result (finished await_change calls)

-- ===== src/Operator/Reconcile/Laws.antt =====
-- packages/shulker-operator/src/reconcilers: what the reconcilers have done when they are through.
use shulker.Prelude.{
  ℕ, String, Bool, true, false, List, [], ◌∷◌, Option, ◌≡◌, ◌≢◌, ◌↔◌, ◌⊎◌, refl, ◌<◌, ◌^◌, arith,
}
use shulker.Prelude.Int32.{I32}
use shulker.Outcome.{Outcome, ok, panicked, running}
use shulker.Result.{Result, err}
use shulker.Agones.{FleetStatus}
use shulker.KubeUtils.Builder.{BuilderReconcilerError}
use shulker.Crds.Condition.{Condition, true_, false_, find_condition, is_condition_true}
use shulker.Crds.Condition.Laws.{set_condition_tests, set_condition_others}
use shulker.Matchmaking.Reconciler.{Action, requeue}
use shulker.Operator.Reconcile.{ReconcilerError, builder_error, call, on_reply}
use shulker.Operator.Reconcile.Cluster.{
  Builder, BuilderReplies, builders, of_builder, reconcile_each, reconcile_cluster,
  forwarding_secret, headless_service, proxy_service_account, proxy_role, proxy_role_binding,
  minecraft_server_service_account, minecraft_server_role, minecraft_server_role_binding,
  redis_service, redis_stateful_set, external_servers_config_map,
}
use shulker.Operator.Reconcile.Replicas.{
  ReplicasStatus, status_of, set_available, is_available, conditions_of,
}

available_is :
    (now : ℕ) (available : Bool) (conditions : List Condition)
    → is_condition_true "Available" (set_available now available conditions) ≡ available
unfolding set_available
available_is now true conditions =
    (set_condition_tests now "Available" true_ "AtLeastOneReadyOrAllocated"
      "One or more servers are ready or allocated" conditions).0
available_is now false conditions =
    (set_condition_tests now "Available" false_ "NoneReady" "No server are ready" conditions).0

-- At least one replica, by a signed number.
abbrev pub IsSome : I32 → Type 0
IsSome x = (0 < x) × (x < 2 ^ 31)

is_available_iff :
    (fleet_status : FleetStatus)
    → (is_available fleet_status ≡ true)
      ↔ (IsSome fleet_status.ready_replicas ⊎ IsSome fleet_status.allocated_replicas)
is_available_iff fleet_status = ground arith

set_available_others :
    (now : ℕ) (available : Bool) (conditions : List Condition) (other : String)
    → "Available" ≢ other
    → find_condition other (set_available now available conditions)
      ≡ find_condition other conditions
unfolding set_available
set_available_others now true conditions other h =
    set_condition_others now "Available" other true_ "AtLeastOneReadyOrAllocated"
      "One or more servers are ready or allocated" conditions h
set_available_others now false conditions other h =
    set_condition_others now "Available" other false_ "NoneReady" "No server are ready" conditions h

-- The status of a fleet has the replicas of the fleet of Agones, and says that the fleet is available
-- exactly if at least one of them is ready or at least one is allocated, as signed numbers, whatever
-- it said before; it keeps the conditions of every other type.
pub status_of_correct :
    (now : ℕ) (fleet_status : FleetStatus) (status : Option ReplicasStatus) (other : String)
    → "Available" ≢ other
    → ((is_condition_true "Available" (status_of now fleet_status status).conditions ≡ true)
        ↔ (IsSome fleet_status.ready_replicas ⊎ IsSome fleet_status.allocated_replicas))
      × (find_condition other (status_of now fleet_status status).conditions
          ≡ find_condition other (conditions_of status))
      × ((status_of now fleet_status status).replicas ≡ fleet_status.replicas)
      × ((status_of now fleet_status status).ready_replicas ≡ fleet_status.ready_replicas)
      × ((status_of now fleet_status status).allocated_replicas ≡ fleet_status.allocated_replicas)
unfolding status_of
status_of_correct now fleet_status status other h = (
  rw (available_is now (is_available fleet_status) (conditions_of status))
      (is_available_iff fleet_status),
  set_available_others now (is_available fleet_status) (conditions_of status) other h,
  refl,
  refl,
  refl,
)

-- Each of these calls, newest first, succeeded.
abbrev pub AllSucceeded : BuilderReplies → List Builder → Type 0
AllSucceeded replies [] = Unit {0}
AllSucceeded replies (b ∷ before) =
    (replies b before ≡ ok (Result.ok tt)) × AllSucceeded replies before

-- The calls after a list of builders is reconciled in order.
abbrev called : List Builder → List Builder → List Builder
called [] calls = calls
called (b ∷ rest) calls = called rest (b ∷ calls)

-- How reconciling ends: all the builders of the list have been called and have succeeded, or the
-- last call is the first that did not succeed, and the result is its error, or its panic.
abbrev pub Ends :
    BuilderReplies → List Builder → Outcome (Result ReconcilerError Action) × List Builder → Type 0
Ends replies all (ok (Result.ok action), calls) =
    (calls ≡ all) × AllSucceeded replies calls × (action ≡ requeue 300)
Ends replies all (ok (err e), []) = ⊥
Ends replies all (ok (err e), b ∷ before) =
    AllSucceeded replies before
    × ((cause : BuilderReconcilerError) × (replies b before ≡ ok (err cause))
        × (e ≡ builder_error cause))
Ends replies all (panicked, []) = ⊥
Ends replies all (panicked, b ∷ before) =
    AllSucceeded replies before × (replies b before ≡ panicked)
Ends replies all (running, []) = ⊥
Ends replies all (running, b ∷ before) = AllSucceeded replies before × (replies b before ≡ running)

on_call :
    (replies : BuilderReplies) (b : Builder) (rest calls : List Builder)
    (reply : Outcome (Result BuilderReconcilerError (Unit {0})))
    → replies b calls ≡ reply
    → AllSucceeded replies calls
    → (AllSucceeded replies (b ∷ calls)
        → Ends replies (called rest (b ∷ calls)) (reconcile_each replies rest (b ∷ calls)))
    → Ends replies
        (called rest (b ∷ calls))
        (on_reply (of_builder reply) (λ done. reconcile_each replies rest) (b ∷ calls))
unfolding on_reply
on_call replies b rest calls (ok (Result.ok done)) e h later = later (e, h)
on_call replies b rest calls (ok (err cause)) e h later = (h, (cause, e, refl))
on_call replies b rest calls panicked e h later = (h, e)
on_call replies b rest calls running e h later = (h, e)

reconcile_each-Ends :
    (replies : BuilderReplies) (rest calls : List Builder)
    → AllSucceeded replies calls
    → Ends replies (called rest calls) (reconcile_each replies rest calls)
unfolding reconcile_each call
reconcile_each-Ends replies [] calls h = (refl, h, refl)
reconcile_each-Ends replies (b ∷ rest) calls h =
    on_call replies b rest calls (replies b calls) refl h
      (reconcile_each-Ends replies rest (b ∷ calls))

-- All the calls of a successful reconciliation, newest first: the service accounts and the roles
-- come before the bindings that name them.
abbrev pub all_calls : List Builder
all_calls =
    external_servers_config_map ∷ redis_stateful_set ∷ redis_service ∷ minecraft_server_role_binding
    ∷ minecraft_server_role ∷ minecraft_server_service_account ∷ proxy_role_binding ∷ proxy_role
    ∷ proxy_service_account ∷ headless_service ∷ forwarding_secret ∷ []

-- Whatever the builders of a cluster reply, reconciling it either calls all eleven in their order and
-- each of them succeeds, or it ends at the first that does not, with its error or its panic.
pub reconcile_cluster-Ends :
    (replies : BuilderReplies) → Ends replies all_calls (reconcile_cluster replies [])
unfolding reconcile_cluster
reconcile_cluster-Ends replies = reconcile_each-Ends replies builders [] tt

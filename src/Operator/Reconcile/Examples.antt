-- ===== src/Operator/Reconcile/Examples.antt =====
-- Reconcilers against concrete replies.
use shulker.Prelude.{String, true, [], none, some, ◌≡◌, ◌≢◌, ◌↔◌, ◌⊎◌, arith, eq_iff}
use shulker.Outcome.{ok}
use shulker.Result.{Result}
use shulker.KubeUtils.Builder.{validation_error}
use shulker.Agones.{FleetStatus, GameServerStatus}
use shulker.Crds.Condition.{find_condition, is_condition_true}
use shulker.Operator.Reconcile.Replicas.{status_of, conditions_of}
use shulker.Operator.Reconcile.Laws.{
  Ends, all_calls, reconcile_cluster-Ends, IsSome, status_of_correct,
}
use shulker.Operator.Reconcile.Cluster.{BuilderReplies, redis_service, reconcile_cluster}
use shulker.Operator.Reconcile.Server as Server
use shulker.Operator.Reconcile.ServerLaws as ServerLaws
use shulker.Operator.Reconcile.ServerLaws.{reconcile_server-IsJustified}
use shulker.Operator.Reconcile.Fleet.{FleetOwner, FleetReplies, reconcile_proxies}
use shulker.Operator.Reconcile.FleetLaws as FleetLaws
use shulker.Operator.Reconcile.FleetLaws.{
  reconcile_proxies-IsJustified, reconcile_servers-IsJustified,
}
use shulker.Operator.Fixtures.{my_cluster}

-- The service of Redis cannot be built.
abbrev no_redis : BuilderReplies
no_redis redis_service calls = ok (Result.err (validation_error "RedisServiceBuilder" "refused"))
no_redis builder calls = ok (Result.ok tt)

reconcile_cluster-Ends_example : Ends no_redis all_calls (reconcile_cluster no_redis [])
reconcile_cluster-Ends_example = reconcile_cluster-Ends no_redis

abbrev half_ready : FleetStatus
half_ready = record { replicas = 2; ready_replicas = 1; allocated_replicas = 0 }

ready_differs : ◌≢◌ {A = String} "Available" "Ready"
ready_differs = ground (arith, eq_iff "Available" "Ready")

status_of_correct_example :
    ((is_condition_true "Available" (status_of 100 half_ready none).conditions ≡ true)
      ↔ (IsSome half_ready.ready_replicas ⊎ IsSome half_ready.allocated_replicas))
    × (find_condition "Ready" (status_of 100 half_ready none).conditions
        ≡ find_condition "Ready" (conditions_of none))
    × ((status_of 100 half_ready none).replicas ≡ half_ready.replicas)
    × ((status_of 100 half_ready none).ready_replicas ≡ half_ready.ready_replicas)
    × ((status_of 100 half_ready none).allocated_replicas ≡ half_ready.allocated_replicas)
status_of_correct_example = status_of_correct 100 half_ready none "Ready" ready_differs

abbrev owner : FleetOwner
owner = record {
  namespace = some "default";
  is_being_deleted = none;
  cluster_ref = record { name = "my-cluster" };
  status = none;
}

abbrev fleet_replies : FleetReplies
fleet_replies = record {
  cluster_reply = λ calls ns name. Result.ok my_cluster;
  builder_reply = λ calls step. ok (Result.ok tt);
  fleet_reply = λ calls cluster. ok (Result.ok (some half_ready));
  patch_reply = λ calls status. Result.ok tt;
  now = λ calls. 100;
}

reconcile_proxies-IsJustified_example :
    FleetLaws.IsJustified fleet_replies owner (reconcile_proxies fleet_replies owner []).1
reconcile_proxies-IsJustified_example = reconcile_proxies-IsJustified fleet_replies owner

abbrev server_owner : Server.ServerOwner
server_owner = record {
  name_any = "my-server";
  namespace = some "default";
  is_being_deleted = none;
  cluster_ref = record { name = "my-cluster" };
  status = none;
}

abbrev gone : GameServerStatus
gone = record { state = "Shutdown"; address = ""; ports = [] }

abbrev server_replies : GameServerStatus → Server.ServerReplies
server_replies status = record {
  cluster_reply = λ calls ns name. Result.ok my_cluster;
  config_map_reply = λ calls. ok (Result.ok tt);
  game_server_reply = λ calls cluster. ok (Result.ok (some status));
  delete_reply = λ calls name. Result.ok tt;
  patch_reply = λ calls new_status. Result.ok tt;
  now = λ calls. 100;
}

reconcile_server-IsJustified_example :
    ServerLaws.IsJustified
      (server_replies gone)
      server_owner
      (Server.reconcile_minecraft_server (server_replies gone) server_owner []).1
reconcile_server-IsJustified_example =
    reconcile_server-IsJustified (server_replies gone) server_owner

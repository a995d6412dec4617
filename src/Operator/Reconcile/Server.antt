-- ===== src/Operator/Reconcile/Server.antt =====
-- packages/shulker-operator/src/reconcilers/minecraft_server/mod.rs: the reconciler of a server,
-- which deletes a server whose game server has shut down.
use shulker.Prelude.{ℕ, String, Bool, ◌||◌, List, [], ◌∷◌, Option, none, some, ◌==◌, if◌then◌else◌}
use shulker.Prelude.Int32.{I32}
use shulker.Outcome.{Outcome, ok, panicked}
use shulker.Result.{Result, map_err}
use shulker.Kubernetes.{KubeError}
use shulker.KubeUtils.Builder.{BuilderReconcilerError}
use shulker.Agones.{GameServerStatus, GameServerStatusPort}
use shulker.Crds.Condition.{Condition, true_, false_, set_condition}
use shulker.Crds.MinecraftCluster.{MinecraftCluster, MinecraftClusterRef}
use shulker.Matchmaking.Reconciler.{Action, requeue, await_change}
use shulker.Operator.Reconcile.{
  invalid_cluster_ref, failed_to_delete_stale, Run, Replies, call, finished, requeue_interval,
}
use shulker.Operator.Reconcile.Cluster.{of_builder}

pub record MinecraftServerStatus : Type 0 where
  pub conditions : List Condition
  pub address : String
  pub port : I32

pub data ServerStep : Type 0 where
  get_cluster : String → String → ServerStep
  config_map : ServerStep
  game_server : MinecraftCluster → ServerStep
  delete_server : String → ServerStep
  patch_status : MinecraftServerStatus → ServerStep

pub record ServerOwner : Type 0 where
  pub name_any : String
  pub namespace : Option String
  pub is_being_deleted : Option ℕ
  pub cluster_ref : MinecraftClusterRef
  pub status : Option MinecraftServerStatus

-- Reconciling the game server gives its status, if the game server has one.
pub record ServerReplies : Type 0 where
  pub cluster_reply : List ServerStep → String → String → Result KubeError MinecraftCluster
  pub config_map_reply : List ServerStep → Outcome (Result BuilderReconcilerError (Unit {0}))
  pub game_server_reply :
      List ServerStep
      → MinecraftCluster
      → Outcome (Result BuilderReconcilerError (Option GameServerStatus))
  pub delete_reply : List ServerStep → String → Result KubeError (Unit {0})
  pub patch_reply :
      List ServerStep → MinecraftServerStatus → Result BuilderReconcilerError (Unit {0})
  pub now : List ServerStep → ℕ

abbrev pub conditions_of : Option MinecraftServerStatus → List Condition
conditions_of none = []
conditions_of (some status) = status.conditions

abbrev pub is_ready : String → Bool
is_ready state = (state == "Ready") || (state == "Allocated")

unfoldable pub set_ready : ℕ → String → List Condition → List Condition
unfolding set_condition
set_ready now state conditions =
    if is_ready state
    then set_condition now "Ready" true_ "ReadyOrAllocated"
        "Server is ready and maybe already allocated" conditions
    else set_condition now "Ready" false_ "Unknown" "Server is not ready yet" conditions

-- The status with the port of the game server.
unfoldable pub server_status :
    ℕ
    → GameServerStatus
    → GameServerStatusPort
    → Option MinecraftServerStatus
    → MinecraftServerStatus
unfolding set_ready
server_status now gameserver_status first status = record {
  conditions = set_ready now gameserver_status.state (conditions_of status);
  address = gameserver_status.address;
  port = first.port;
}

module _ (replies : ServerReplies) where
  abbrev pub delete_replies : String → Replies ServerStep (Unit {0})
  delete_replies name calls = ok (map_err failed_to_delete_stale (replies.delete_reply calls name))

  abbrev pub patch_replies : MinecraftServerStatus → Replies ServerStep (Unit {0})
  patch_replies status calls = of_builder (ok (replies.patch_reply calls status))

  abbrev pub cluster_replies : String → MinecraftClusterRef → Replies ServerStep MinecraftCluster
  cluster_replies namespace cluster_ref calls = ok (
      map_err (invalid_cluster_ref cluster_ref.name)
        (replies.cluster_reply calls namespace cluster_ref.name))

  abbrev pub config_map_replies : Replies ServerStep (Unit {0})
  config_map_replies calls = of_builder (replies.config_map_reply calls)

  abbrev pub game_server_replies : MinecraftCluster → Replies ServerStep (Option GameServerStatus)
  game_server_replies cluster calls = of_builder (replies.game_server_reply calls cluster)

  unfoldable pub delete_stale : String → Run ServerStep Action
  unfolding call
  delete_stale name =
      call (delete_server name) (delete_replies name) (λ done. finished await_change)

  -- `ports.first().unwrap()`: a panic without a port.
  unfoldable pub patch_with :
      GameServerStatus
      → List GameServerStatusPort
      → Option MinecraftServerStatus
      → Run ServerStep Action
  unfolding call
  patch_with gameserver_status [] status calls = (panicked, calls)
  patch_with gameserver_status (first ∷ ports) status calls =
      let new_status = server_status (replies.now calls) gameserver_status first status in
      call (patch_status new_status) (patch_replies new_status)
        (λ done. finished (requeue requeue_interval)) calls

  unfoldable pub update_status : ServerOwner → Option GameServerStatus → Run ServerStep Action
  unfolding delete_stale patch_with
  update_status owner none calls = finished (requeue requeue_interval) calls
  update_status owner (some gameserver_status) calls =
      if gameserver_status.state == "Shutdown"
      then delete_stale owner.name_any calls
      else patch_with gameserver_status gameserver_status.ports owner.status calls

  abbrev pub in_namespace : Option String → (String → Run ServerStep Action) → Run ServerStep Action
  in_namespace none next calls = (panicked, calls)
  in_namespace (some namespace) next calls = next namespace calls

  unfoldable pub server_steps : ServerOwner → String → Run ServerStep Action
  unfolding update_status call
  server_steps owner namespace =
      call (get_cluster namespace owner.cluster_ref.name)
        (cluster_replies namespace owner.cluster_ref)
        (λ cluster.
          call config_map config_map_replies (λ done.
            call (game_server cluster) (game_server_replies cluster) (update_status owner)))

  -- `MinecraftServerReconciler::reconcile`.
  unfoldable pub reconcile_server : ServerOwner → Run ServerStep Action
  unfolding server_steps
  reconcile_server owner = in_namespace owner.namespace (server_steps owner)

  abbrev pub unless_deleted : Option ℕ → Run ServerStep Action → Run ServerStep Action
  unless_deleted none run = run
  unless_deleted (some timestamp) run = finished await_change

  unfoldable pub reconcile_minecraft_server : ServerOwner → Run ServerStep Action
  unfolding reconcile_server
  reconcile_minecraft_server owner =
      in_namespace owner.namespace
        (λ namespace. unless_deleted owner.is_being_deleted (reconcile_server owner))

-- ===== src/Operator/Reconcile/Fleet.antt =====
-- packages/shulker-operator/src/reconcilers: the reconcilers of fleets of proxies
-- (proxy_fleet/mod.rs) and of servers (minecraft_server_fleet/mod.rs), with the reference to their
-- cluster (cluster_ref.rs).
use shulker.Prelude.{ℕ, String, List, Option, none, some}
use shulker.Outcome.{Outcome, ok, panicked}
use shulker.Result.{Result, map_err}
use shulker.Kubernetes.{KubeError}
use shulker.KubeUtils.Builder.{BuilderReconcilerError}
use shulker.Agones.{FleetStatus}
use shulker.Crds.MinecraftCluster.{MinecraftCluster, MinecraftClusterRef}
use shulker.Matchmaking.Reconciler.{Action, requeue, await_change}
use shulker.Operator.Reconcile.{invalid_cluster_ref, Run, Replies, call, finished, requeue_interval}
use shulker.Operator.Reconcile.Cluster.{of_builder}
use shulker.Operator.Reconcile.Replicas.{ReplicasStatus, status_of}

pub data FleetStep : Type 0 where
  get_cluster : String → String → FleetStep
  config_map : FleetStep
  service : FleetStep
  fleet : MinecraftCluster → FleetStep
  fleet_autoscaler : FleetStep
  patch_status : ReplicasStatus → FleetStep

-- What a reconciler reads of its fleet.
pub record FleetOwner : Type 0 where
  pub namespace : Option String
  pub is_being_deleted : Option ℕ
  pub cluster_ref : MinecraftClusterRef
  pub status : Option ReplicasStatus

-- Reconciling the fleet of Agones gives its status, if the fleet has one.
pub record FleetReplies : Type 0 where
  pub cluster_reply : List FleetStep → String → String → Result KubeError MinecraftCluster
  pub builder_reply :
      List FleetStep → FleetStep → Outcome (Result BuilderReconcilerError (Unit {0}))
  pub fleet_reply :
      List FleetStep
      → MinecraftCluster
      → Outcome (Result BuilderReconcilerError (Option FleetStatus))
  pub patch_reply : List FleetStep → ReplicasStatus → Result BuilderReconcilerError (Unit {0})
  pub now : List FleetStep → ℕ

module _ (replies : FleetReplies) where
  abbrev pub cluster_replies : String → MinecraftClusterRef → Replies FleetStep MinecraftCluster
  cluster_replies namespace cluster_ref calls = ok (
      map_err (invalid_cluster_ref cluster_ref.name)
        (replies.cluster_reply calls namespace cluster_ref.name))

  abbrev pub builder_replies : FleetStep → Replies FleetStep (Unit {0})
  builder_replies step calls = of_builder (replies.builder_reply calls step)

  abbrev pub fleet_replies : MinecraftCluster → Replies FleetStep (Option FleetStatus)
  fleet_replies cluster calls = of_builder (replies.fleet_reply calls cluster)

  abbrev pub patch_replies : ReplicasStatus → Replies FleetStep (Unit {0})
  patch_replies status calls = of_builder (ok (replies.patch_reply calls status))

  -- `resolve_cluster_ref`.
  unfoldable pub resolve_cluster_ref :
      {B : Type 0}
      → String
      → MinecraftClusterRef
      → (MinecraftCluster → Run FleetStep B)
      → Run FleetStep B
  unfolding call
  resolve_cluster_ref namespace cluster_ref =
      call (get_cluster namespace cluster_ref.name) (cluster_replies namespace cluster_ref)

  abbrev pub build_with : {B : Type 0} → FleetStep → (Unit {0} → Run FleetStep B) → Run FleetStep B
  build_with step = call step (builder_replies step)

  abbrev pub build_fleet :
      {B : Type 0} → MinecraftCluster → (Option FleetStatus → Run FleetStep B) → Run FleetStep B
  build_fleet cluster = call (fleet cluster) (fleet_replies cluster)

  unfoldable pub update_status : Option ReplicasStatus → Option FleetStatus → Run FleetStep Action
  unfolding call status_of
  update_status status none calls = finished (requeue requeue_interval) calls
  update_status status (some fleet_status) calls =
      let new_status = status_of (replies.now calls) fleet_status status in
      call (patch_status new_status) (patch_replies new_status)
        (λ done. finished (requeue requeue_interval)) calls

  abbrev pub in_namespace :
      {B : Type 0} → Option String → (String → Run FleetStep B) → Run FleetStep B
  in_namespace none next calls = (panicked, calls)
  in_namespace (some namespace) next calls = next namespace calls

  -- `ProxyFleetReconciler::reconcile`.
  unfoldable pub reconcile_proxy_fleet : FleetOwner → Run FleetStep Action
  unfolding resolve_cluster_ref update_status
  reconcile_proxy_fleet owner = in_namespace owner.namespace (λ namespace.
      resolve_cluster_ref namespace owner.cluster_ref (λ cluster. build_with config_map (λ first.
        build_with service (λ second. build_fleet cluster (λ fleet_status.
          build_with fleet_autoscaler (λ third. update_status owner.status fleet_status))))))

  -- `MinecraftServerFleetReconciler::reconcile`.
  unfoldable pub reconcile_server_fleet : FleetOwner → Run FleetStep Action
  unfolding resolve_cluster_ref update_status
  reconcile_server_fleet owner = in_namespace owner.namespace (λ namespace.
      resolve_cluster_ref namespace owner.cluster_ref (λ cluster. build_with config_map (λ first.
        build_fleet cluster (λ fleet_status.
          build_with fleet_autoscaler (λ second. update_status owner.status fleet_status)))))

  -- Nothing is done for a fleet that is being deleted.
  abbrev pub unless_deleted : Option ℕ → Run FleetStep Action → Run FleetStep Action
  unless_deleted none run = run
  unless_deleted (some timestamp) run = finished await_change

  unfoldable pub reconcile_proxies : FleetOwner → Run FleetStep Action
  unfolding reconcile_proxy_fleet
  reconcile_proxies owner =
      in_namespace owner.namespace
        (λ namespace. unless_deleted owner.is_being_deleted (reconcile_proxy_fleet owner))

  unfoldable pub reconcile_servers : FleetOwner → Run FleetStep Action
  unfolding reconcile_server_fleet
  reconcile_servers owner =
      in_namespace owner.namespace
        (λ namespace. unless_deleted owner.is_being_deleted (reconcile_server_fleet owner))

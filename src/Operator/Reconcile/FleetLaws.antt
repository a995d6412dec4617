-- ===== src/Operator/Reconcile/FleetLaws.antt =====
-- packages/shulker-operator/src/reconcilers: when the reconcilers of fleets write a status
-- (proxy_fleet/mod.rs, minecraft_server_fleet/mod.rs).
use shulker.Prelude.{ℕ, String, List, [], ◌∷◌, Option, none, some, ◌≡◌, ◌∙◌, refl, ap}
use shulker.Outcome.{ok}
use shulker.Result.{Result}
use shulker.Agones.{FleetStatus}
use shulker.Crds.MinecraftCluster.{MinecraftCluster}
use shulker.Matchmaking.Reconciler.{Action, requeue}
use shulker.Operator.Reconcile.{Run, finished, requeue_interval}
use shulker.Operator.Reconcile.Trace.{call_keeps, of_builder-eq-ok}
use shulker.Operator.Reconcile.Replicas.{status_of}
use shulker.Operator.Reconcile.Fleet.{
  FleetStep, get_cluster, config_map, service, fleet, fleet_autoscaler, patch_status, FleetOwner,
  FleetReplies, cluster_replies, builder_replies, fleet_replies, patch_replies, resolve_cluster_ref,
  build_with, build_fleet, update_status, in_namespace, unless_deleted, reconcile_proxy_fleet,
  reconcile_server_fleet, reconcile_proxies, reconcile_servers,
}

module _ (replies : FleetReplies) (owner : FleetOwner) where
  -- The fleet and then its autoscaler have been brought up to date, and the fleet has this status.
  abbrev pub Saw : FleetStatus → List FleetStep → Type 0
  Saw seen (fleet_autoscaler ∷ fleet cluster ∷ before) =
      (replies.builder_reply (fleet cluster ∷ before) fleet_autoscaler ≡ ok (Result.ok tt))
      × (replies.fleet_reply before cluster ≡ ok (Result.ok (some seen)))
  Saw seen calls = ⊥

  -- The reason for each call, newest first.
  abbrev pub IsJustified : List FleetStep → Type 0
  IsJustified [] = Unit {0}
  IsJustified (get_cluster ns name ∷ before) =
      (owner.namespace ≡ some ns) × (name ≡ owner.cluster_ref.name) × IsJustified before
  IsJustified (config_map ∷ before) = IsJustified before
  IsJustified (service ∷ before) = IsJustified before
  IsJustified (fleet cluster ∷ before) = IsJustified before
  IsJustified (fleet_autoscaler ∷ before) = IsJustified before
  IsJustified (patch_status status ∷ before) =
      ((seen : FleetStatus) × Saw seen before
        × (status ≡ status_of (replies.now before) seen owner.status))
      × IsJustified before

  updated :
      (found : Option FleetStatus) (calls : List FleetStep)
      → ((seen : FleetStatus) → found ≡ some seen → Saw seen calls)
      → IsJustified calls
      → IsJustified (update_status replies owner.status found calls).1
  unfolding update_status
  updated none calls saw h = h
  updated (some seen) calls saw h =
      let status = status_of (replies.now calls) seen owner.status in
      let here : IsJustified (patch_status status ∷ calls) = ((seen, saw seen refl, refl), h) in
      call_keeps IsJustified (patch_status status) (patch_replies replies status)
        (λ done. finished (requeue requeue_interval)) calls here (λ done reply. here)

  -- The fleet, its autoscaler and the status.
  scaled :
      (cluster : MinecraftCluster) (calls : List FleetStep)
      → IsJustified calls
      → IsJustified
          (build_fleet replies cluster
            (λ found.
              build_with replies fleet_autoscaler
                (λ done. update_status replies owner.status found))
            calls).1
  scaled cluster calls h =
      call_keeps IsJustified (fleet cluster) (fleet_replies replies cluster)
        (λ found.
          build_with replies fleet_autoscaler (λ done. update_status replies owner.status found))
        calls h
        (λ found seen_reply.
          call_keeps IsJustified fleet_autoscaler (builder_replies replies fleet_autoscaler)
            (λ done. update_status replies owner.status found) _ h
            (λ done reply.
              updated found _
                (λ seen e. (
                  of_builder-eq-ok _ reply,
                  of_builder-eq-ok _ seen_reply ∙ ap (λ f. ok (Result.ok f)) e,
                ))
                h))

  in_namespace_keeps :
      (namespace : Option String) (run : String → Run FleetStep Action)
      → ((ns : String) → namespace ≡ some ns → IsJustified (run ns []).1)
      → IsJustified (in_namespace replies namespace run []).1
  in_namespace_keeps none run h = tt
  in_namespace_keeps (some ns) run h = h ns refl

  unless_deleted_keeps :
      (deletion : Option ℕ) (run : Run FleetStep Action)
      → IsJustified (run []).1
      → IsJustified (unless_deleted replies deletion run []).1
  unless_deleted_keeps none run h = h
  unless_deleted_keeps (some timestamp) run h = tt

  resolved :
      (ns : String) (run : MinecraftCluster → Run FleetStep Action)
      → owner.namespace ≡ some ns
      → ((cluster : MinecraftCluster)
          → IsJustified (run cluster (get_cluster ns owner.cluster_ref.name ∷ [])).1)
      → IsJustified (resolve_cluster_ref replies ns owner.cluster_ref run []).1
  unfolding resolve_cluster_ref
  resolved ns run named h =
      call_keeps IsJustified (get_cluster ns owner.cluster_ref.name)
        (cluster_replies replies ns owner.cluster_ref) run [] (named, refl, tt)
        (λ cluster got. h cluster)

  -- Whatever is replied, reconciling a fleet of servers writes a status only after the fleet of Agones
  -- and then its autoscaler are up to date, and it is the one that follows from this fleet.
  pub reconcile_servers-IsJustified : IsJustified (reconcile_servers replies owner []).1
  unfolding reconcile_servers reconcile_server_fleet
  reconcile_servers-IsJustified = in_namespace_keeps owner.namespace _ (λ outer outer_named.
      unless_deleted_keeps owner.is_being_deleted _ (
        in_namespace_keeps owner.namespace _ (λ ns named. resolved ns _ named (λ cluster.
          call_keeps IsJustified config_map (builder_replies replies config_map) _ _
            (named, refl, tt) (λ done reply. scaled cluster _ (named, refl, tt))))))

  -- Whatever is replied, reconciling a fleet of proxies writes a status only after the fleet of Agones
  -- and then its autoscaler are up to date, and it is the one that follows from this fleet.
  pub reconcile_proxies-IsJustified : IsJustified (reconcile_proxies replies owner []).1
  unfolding reconcile_proxies reconcile_proxy_fleet
  reconcile_proxies-IsJustified = in_namespace_keeps owner.namespace _ (λ outer outer_named.
      unless_deleted_keeps owner.is_being_deleted _ (
        in_namespace_keeps owner.namespace _ (λ ns named. resolved ns _ named (λ cluster.
          call_keeps IsJustified config_map (builder_replies replies config_map) _ _
            (named, refl, tt)
            (λ first reply.
              call_keeps IsJustified service (builder_replies replies service) _ _ (named, refl, tt)
                (λ second answer. scaled cluster _ (named, refl, tt)))))))

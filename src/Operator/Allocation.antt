-- ===== src/Operator/Allocation.antt =====
-- packages/shulker-operator/src/api/sdk_grpc.rs: allocating a game server from a fleet, and summoning
-- one when none is free.
pub mod Server
pub mod Laws
pub mod Examples
use shulker.Prelude.{
  ℕ, zero, suc, String, Bool, true, false, List, [], ◌∷◌, Option, none, some, if◌then◌else◌,
}
use shulker.Prelude.Dict.{Dict, insert, extend}
use shulker.Prelude.Text.{◌⧺◌}
use shulker.Outcome.{Outcome, ok, panicked}
use shulker.Result.{Result}
use shulker.Kubernetes.{KubeError, OwnerReference}
use shulker.Matchmaking.Director.{Status, FleetAllocationRequest}
use shulker.Operator.Summon.{
  MinecraftServerFleet, Fleet, GameServer, AllocationRequest, Call, get_minecraft_server_fleet,
  allocate, get_fleet, create_game_server, list_game_servers, CreateError, serde_error, refused,
  Failure, kube, message, Cluster, Effect, and_then, with_some, or_retry, first_listed, selector,
  wait_for_game_server, summoned, after_create, summon_from_fleet,
  summon_from_minecraft_server_fleet, order_ticket_annotation,
}

module _ {Spec : Type 0} (cluster : Cluster Spec) where
  abbrev pub fleet_status : FleetAllocationRequest → KubeError → Status
  fleet_status request (KubeError.api e) = record {
    code = 5;
    message = "fleet " ⧺ request.name ⧺ " in namespace " ⧺ request.namespace ⧺ " not found";
  }
  fleet_status request (KubeError.other e) = record {
    code = 13;
    message =
        "failed to get fleet "
        ⧺ request.name
        ⧺ " in namespace "
        ⧺ request.namespace
        ⧺ ": "
        ⧺ cluster.display (kube (KubeError.other e));
  }

  abbrev pub summon_status : Failure → Status
  summon_status e = record {
    code = 13;
    message = "failed to summon game server: " ⧺ cluster.display e;
  }

  abbrev pub exhausted : FleetAllocationRequest → Status
  exhausted request = record {
    code = 8;
    message =
        "no game server available for fleet " ⧺ request.name ⧺ " in namespace " ⧺ request.namespace;
  }

  abbrev pub allocation : FleetAllocationRequest → AllocationRequest
  allocation request = record {
    namespace = request.namespace;
    match_labels = ("minecraftserverfleet.shulkermc.io/name", request.name) ∷ [];
    annotations = request.custom_annotations;
  }

  -- `ResourceExt::name_any`.
  abbrev name_any : GameServer Spec → String
  name_any game_server = elim (game_server.name) [
    | some name ↦ name
    | none ↦ elim (game_server.generate_name) [ some name ↦ name | none ↦ "" ]
  ]

  pub on_allocation :
      FleetAllocationRequest
      → MinecraftServerFleet
      → Result Status String
      → List (Call Spec)
      → Effect Spec Status String
  unfolding summon_from_minecraft_server_fleet
  on_allocation request fleet (Result.ok game_server_id) calls =
      (ok (Result.ok game_server_id), calls)
  on_allocation request fleet (Result.err status) calls =
      if request.summon_if_needed
      then and_then
          (summon_from_minecraft_server_fleet cluster fleet (some request.custom_annotations) calls)
          summon_status (λ game_server calls'. (ok (Result.ok (name_any game_server)), calls'))
      else (ok (Result.err (exhausted request)), calls)

  pub allocate_from_fleet : FleetAllocationRequest → List (Call Spec) → Effect Spec Status String
  unfolding on_allocation
  allocate_from_fleet request calls =
      and_then
        (
          ok (cluster.minecraft_server_fleet calls request.namespace request.name),
          get_minecraft_server_fleet request.namespace request.name ∷ calls,
        )
        (fleet_status request)
        (λ fleet calls'.
          on_allocation request fleet (cluster.allocated calls' (allocation request))
            (allocate (allocation request) ∷ calls'))

-- ===== src/Operator/Allocation/Laws.antt =====
-- What an allocation does and replies.
use shulker.Prelude.{if◌then◌else◌, ◌≡◌, refl, String, Bool, true, false, List, ◌∷◌, some, []}
use shulker.Outcome.{ok}
use shulker.Result.{Result, map_err}
use shulker.Matchmaking.Director.{Status, FleetAllocationRequest}
use shulker.Operator.Summon.{
  MinecraftServerFleet, Fleet, Call, get_minecraft_server_fleet, allocate, get_fleet,
  create_game_server, list_game_servers, Cluster,
}
use shulker.Operator.Allocation.Server.{IsMadeFor}
use shulker.Operator.Allocation.{exhausted, allocation, on_allocation, allocate_from_fleet}

module _ {Spec : Type 0} (cluster : Cluster Spec) (request : FleetAllocationRequest) where
  -- The last three calls: the fleet that the request names was read, Agones was asked for a server
  -- and had none, and the fleet of Agones under the name and in the namespace that were read is this.
  abbrev pub AskedFor : Fleet Spec → List (Call Spec) → Type 0
  AskedFor fleet
        (get_fleet ns name ∷ allocate r ∷ get_minecraft_server_fleet place which ∷ before) =
      (read : MinecraftServerFleet) × (status : Status) × (cluster.minecraft_server_fleet before
          request.namespace request.name
        ≡ Result.ok read)
      × (read.namespace ≡ some ns)
      × (read.name_any ≡ name)
      × (cluster.allocated (get_minecraft_server_fleet place which ∷ before) r ≡ Result.err status)
      × (cluster.fleet (allocate r ∷ get_minecraft_server_fleet place which ∷ before) ns name
          ≡ Result.ok fleet)
  AskedFor fleet calls = ⊥

  -- Why each call is made, newest first.
  abbrev pub IsJustified : List (Call Spec) → Type 0
  IsJustified [] = Unit {0}
  IsJustified (get_minecraft_server_fleet ns name ∷ before) =
      (ns ≡ request.namespace) × (name ≡ request.name) × IsJustified before
  IsJustified (allocate r ∷ before) =
      (r.namespace ≡ request.namespace)
      × (r.match_labels ≡ ("minecraftserverfleet.shulkermc.io/name", request.name) ∷ [])
      × (r.annotations ≡ request.custom_annotations)
      × IsJustified before
  IsJustified (get_fleet ns name ∷ before) = (request.summon_if_needed ≡ true) × IsJustified before
  IsJustified (create_game_server ns game_server ∷ before) =
      (request.summon_if_needed ≡ true)
      × ((fleet : Fleet Spec) × AskedFor fleet before
          × (fleet.namespace ≡ some ns)
          × IsMadeFor fleet request.custom_annotations (cluster.order_ticket before) game_server)
      × IsJustified before
  IsJustified (list_game_servers ns label ∷ before) = IsJustified before

  if_false {ℓ} : {A : Type ℓ} (b : Bool) (x y : A) → b ≡ false → (if b then x else y) ≡ y
  if_false b x y h = rw h

  -- The calls up to the request for a server.
  abbrev asked_after : List (Call Spec) → List (Call Spec)
  asked_after before =
      allocate (allocation cluster request)
      ∷ get_minecraft_server_fleet request.namespace request.name
      ∷ before

  -- A request that does not ask for a game server to be summoned gets what Agones allocates, or the
  -- reply that the fleet is exhausted, and no other call is made.
  allocate_from_fleet_only :
      (calls : List (Call Spec)) (fleet : MinecraftServerFleet)
      → request.summon_if_needed ≡ false
      → cluster.minecraft_server_fleet calls request.namespace request.name ≡ Result.ok fleet
      → let looked = get_minecraft_server_fleet request.namespace request.name ∷ calls in
        allocate_from_fleet cluster request calls ≡ (
          ok (
              map_err
                (λ status. exhausted cluster request)
                (cluster.allocated looked (allocation cluster request))),
          allocate (allocation cluster request) ∷ looked,
        )
  unfolding allocate_from_fleet on_allocation
  allocate_from_fleet_only calls fleet unwanted found = rw found (go _)
    where
      go :
          (reply : Result Status String)
          → on_allocation cluster request fleet reply (
              allocate (allocation cluster request)
              ∷ get_minecraft_server_fleet request.namespace request.name
              ∷ calls)
            ≡ (
              ok (map_err (λ status. exhausted cluster request) reply),
              allocate (allocation cluster request)
                  ∷ get_minecraft_server_fleet request.namespace request.name
                  ∷ calls,
            )
      go (Result.ok id) = refl
      go (Result.err status) = if_false request.summon_if_needed _ _ unwanted

-- ===== src/Operator/Allocation/Examples.antt =====
-- Allocations on a concrete cluster, and witnesses.
use shulker.Prelude.{ℕ, ◌≡◌, refl, Bool, true, [], ◌∷◌, some}
use shulker.Outcome.{ok}
use shulker.Result.{Result}
use shulker.Kubernetes.{OwnerReference}
use shulker.Matchmaking.Director.{FleetAllocationRequest}
use shulker.Operator.Summon.{
  Fleet, GameServer, serde_error, Cluster, summon_from_minecraft_server_fleet, summon_from_fleet,
  after_create, wait_for_game_server, first_listed,
}
use shulker.Operator.Allocation.{allocate_from_fleet, on_allocation}

abbrev reference : OwnerReference
reference = record {
  api_version = "agones.dev/v1";
  kind = "Fleet";
  name = "lobbies";
  uid = "7";
  controller = some true;
}

abbrev lobbies : Fleet ℕ
lobbies = record {
  name_any = "lobbies";
  namespace = some "blue";
  template_labels = [];
  template_annotations = ("kept", "yes") ∷ ("by", "template") ∷ [];
  template_spec = 1;
  controller_owner_ref = some reference;
}

abbrev lobby_server : GameServer ℕ
lobby_server = record {
  generate_name = some "lobbies-manual-";
  name = some "lobbies-manual-1";
  namespace = some "blue";
  labels = [];
  annotations = [];
  owner_references = reference ∷ [];
  spec = 1;
}

-- No server is free, and the reply to a creation cannot be read; the server is listed afterwards.
abbrev busy : Cluster ℕ
busy = record {
  minecraft_server_fleet =
      λ calls ns name. Result.ok (record { name_any = name; namespace = some ns });
  allocated = λ calls request. Result.err (record { code = 8; message = "exhausted" });
  fleet = λ calls ns name. Result.ok lobbies;
  created = λ calls ns game_server. Result.err serde_error;
  listed = λ calls ns label. Result.ok (lobby_server ∷ []);
  order_ticket = λ calls. "t";
  max_times = 3;
  display = λ failure. "failed";
}

abbrev request : Bool → FleetAllocationRequest
request summon_if_needed = record {
  namespace = "blue";
  name = "lobbies";
  summon_if_needed = summon_if_needed;
  custom_annotations = ("by", "request") ∷ [];
}

summons_and_waits :
    (allocate_from_fleet busy (request true) []).0 ≡ ok (Result.ok "lobbies-manual-1")
unfolding allocate_from_fleet on_allocation summon_from_minecraft_server_fleet summon_from_fleet
    after_create wait_for_game_server first_listed
summons_and_waits = refl

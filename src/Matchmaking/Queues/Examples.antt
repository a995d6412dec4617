-- ===== src/Matchmaking/Queues/Examples.antt =====
-- The queue registry on concrete queues.
use shulker.Prelude.{ℕ, ◌≡◌, refl, String, [], none, some, ◌==◌, if◌then◌else◌}
use shulker.Prelude.Dict.{get}
use shulker.Outcome.{Outcome, running}
use shulker.Result.{Result}
use shulker.OpenMatch.{FunctionConfig, grpc}
use shulker.Matchmaking.Samples.{Wire, wire, uuid, two_tickets}
use shulker.Matchmaking.Batch.{create_full_matches}
use shulker.Matchmaking.Queues.{
  MatchmakingQueue, QueueRegistry, RegistryError, no_valid_mmf_configuration, create_mmf_config,
  create_match_profile, register_queue,
}
use shulker.Matchmaking.Queues.Laws.{moved_to, register_queue_invalid, register_queue_collision}
use shulker.Matchmaking.Queues.Service.{queue_of_zero_hangs}

abbrev no_queues : QueueRegistry Wire
no_queues = record { mmf_registry = record { entries = [] }; queues = [] }

-- A queue of the namespace `ns`, for its fleet, served by a provided function.
abbrev provided_queue : String → String → ℕ → MatchmakingQueue
provided_queue ns fleet max_players = record {
  name_any = "lobby";
  namespace = some ns;
  deletion_timestamp = none;
  spec = record {
    target_fleet_ref = record { name = fleet };
    mmf = record { built_in = none; provided = some (record { host = "mmf"; port = 50502 }) };
    min_players = some 2;
    max_players = max_players;
  };
}

abbrev provided : FunctionConfig
provided = record { host = "mmf"; port = 50502; type_ = grpc }

abbrev queue_with_no_function : MatchmakingQueue
queue_with_no_function = record {
  name_any = "lobby";
  namespace = some "blue";
  deletion_timestamp = none;
  spec = record {
    target_fleet_ref = record { name = "lobbies" };
    mmf = record { built_in = none; provided = none };
    min_players = none;
    max_players = 4;
  };
}

register_queue_invalid_example :
    (r : QueueRegistry Wire × Result RegistryError (Unit {0})) × (register_queue wire no_queues
        queue_with_no_function
      ≡ Outcome.ok r)
    × (r.1 ≡ Result.err (no_valid_mmf_configuration "lobby"))
    × (get "other" r.0.queues ≡ (
        if "lobby" == "other"
        then moved_to wire (get "lobby" no_queues.queues) queue_with_no_function
        else get "other" no_queues.queues))
unfolding create_mmf_config
register_queue_invalid_example =
    register_queue_invalid wire no_queues queue_with_no_function "blue"
      (no_valid_mmf_configuration "lobby") "other" refl refl

register_queue_collision_example :
    (s t : QueueRegistry Wire) × (register_queue wire no_queues (provided_queue "blue" "lobbies" 4)
      ≡ Outcome.ok (s, Result.ok tt))
    × (register_queue wire s (provided_queue "green" "arenas" 8) ≡ Outcome.ok (t, Result.ok tt))
    × (get "lobby" t.queues
        ≡ some (record {
          namespace = "blue";
          fleet_ref = record { name = "arenas" };
          mmf_config = provided;
          match_profile = create_match_profile wire (provided_queue "green" "arenas" 8);
        }))
unfolding create_mmf_config get
register_queue_collision_example =
    register_queue_collision wire no_queues (provided_queue "blue" "lobbies" 4)
      (provided_queue "green" "arenas" 8) "blue" "green" provided provided refl refl refl refl refl
      refl

queue_of_zero_hangs_example :
    create_full_matches wire uuid 1000
      (create_match_profile wire (provided_queue "blue" "lobbies" 0))
      two_tickets
      0
    ≡ running
queue_of_zero_hangs_example =
    queue_of_zero_hangs wire uuid (provided_queue "blue" "lobbies" 0) 1000 two_tickets 0 refl

-- ===== src/Matchmaking/Reconciler/Examples.antt =====
-- Reconciling concrete queues, and witnesses of the theorems.
use shulker.Prelude.{◌≡◌, refl, [], Option, none, some}
use shulker.Prelude.Dict.{get}
use shulker.Outcome.{ok}
use shulker.Result.{Result}
use shulker.OpenMatch.{FunctionConfig, Timestamp, grpc}
use shulker.Matchmaking.Samples.{Wire, wire}
use shulker.Matchmaking.Queues.{MatchmakingQueue, QueueRegistry, create_mmf_config}
use shulker.Matchmaking.Queues.Laws.{prepared_for}
use shulker.Matchmaking.Reconciler.{requeue, reconcile}
use shulker.Matchmaking.Reconciler.Laws.{reconcile_repeats}

abbrev lobby_queue : Option Timestamp → MatchmakingQueue
lobby_queue deletion_timestamp = record {
  name_any = "lobby";
  namespace = some "blue";
  deletion_timestamp = deletion_timestamp;
  spec = record {
    target_fleet_ref = record { name = "lobbies" };
    mmf = record { built_in = none; provided = some (record { host = "mmf"; port = 50502 }) };
    min_players = some 2;
    max_players = 4;
  };
}

abbrev mmf_config : FunctionConfig
mmf_config = record { host = "mmf"; port = 50502; type_ = grpc }

abbrev deleted_at : Timestamp
deleted_at = record { seconds = 1700; nanos = 0 }

abbrev no_queues : QueueRegistry Wire
no_queues = record { mmf_registry = record { entries = [] }; queues = [] }

lobby_queue-config :
    create_mmf_config no_queues.mmf_registry (lobby_queue none) ≡ Result.ok mmf_config
unfolding create_mmf_config
lobby_queue-config = refl

reconcile_repeats_example :
    (once : QueueRegistry Wire) × (twice : QueueRegistry Wire) × (reconcile wire no_queues
        (lobby_queue none)
      ≡ ok (once, Result.ok (requeue 300)))
    × (reconcile wire once (lobby_queue none) ≡ ok (twice, Result.ok (requeue 300)))
    × (get "lobby" once.queues
        ≡ some
            (prepared_for wire (get "lobby" no_queues.queues) "blue" (lobby_queue none) mmf_config))
    × (get "arena" twice.queues ≡ get "arena" once.queues)
reconcile_repeats_example =
    reconcile_repeats wire no_queues (lobby_queue none) "blue" mmf_config "arena" refl refl
      lobby_queue-config

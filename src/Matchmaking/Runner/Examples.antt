-- ===== src/Matchmaking/Runner/Examples.antt =====
-- The matchmaking service on concrete streams, and witnesses of its theorems.
use shulker.Prelude.{ℕ, ◌+◌, ◌≡◌, refl, arith, List, [], ◌∷◌, map, none, some, take, length}
use shulker.Outcome.{ok}
use shulker.Result.{Result}
use shulker.OpenMatch.{Match, MatchProfile}
use shulker.Matchmaking.Samples.{Wire, wire, uuid, ticket, two_tickets, lobby_pool, bare_profile}
use shulker.Matchmaking.Director.{Status}
use shulker.Matchmaking.Queues.{MatchmakingQueue, create_match_profile}
use shulker.Matchmaking.Queues.Service.{pool_of}
use shulker.Matchmaking.Batch.Matches.{IsBatch, create_matches_correct}
use shulker.Matchmaking.Batch.Partial.{min_players}
use shulker.Matchmaking.Batch.{create_matches}
use shulker.Matchmaking.Extensions.{set_max_players_in_profile, get_max_players_from_profile}
use shulker.Matchmaking.Extensions.Laws.{get-set_max_players}
use shulker.Prelude.Int32.{as_usize}
use shulker.Matchmaking.Runner.{QueryService, propose_for_pool, run, query_pool, collect}
use shulker.Matchmaking.Runner.Service.{sound, reply, run_serves_queue}

abbrev small_queue : MatchmakingQueue
small_queue = record {
  name_any = "lobby";
  namespace = some "blue";
  deletion_timestamp = none;
  spec = record {
    target_fleet_ref = record { name = "lobbies" };
    mmf = record { built_in = none; provided = none };
    min_players = some 2;
    max_players = 4;
  };
}

-- Two chunks of tickets, and no backfill.
abbrev chunked : QueryService Wire
chunked = record {
  tickets_reply = λ queries pool. sound ((ticket "t1" ∷ []) ∷ two_tickets ∷ []);
  backfills_reply = λ queries pool. sound [];
  now = λ queries. 1700 + length queries;
  display = λ s. s.message;
}

run_serves_queue_example :
    (ms : List (Match Wire)) × (run wire uuid chunked 4 10
        (some (create_match_profile wire small_queue))
        []
        0
      ≡ ok (Result.ok (map reply (take 10 ms))))
    × IsBatch wire 1702
        (pool_of small_queue)
        2
        4
        (ticket "t1" ∷ ticket "t1" ∷ ticket "t2" ∷ [])
        []
        ms
run_serves_queue_example =
    run_serves_queue wire uuid chunked 4 small_queue [] 0 10 ((ticket "t1" ∷ []) ∷ two_tickets ∷ [])
      [] refl refl tt (omega arith) (omega arith) (omega arith) (omega arith)

abbrev unavailable : Status
unavailable = record { code = 14; message = "unavailable" }

-- The service answers for the first pool, and fails for the second.
abbrev failing : QueryService Wire
failing = record {
  tickets_reply =
      λ queries pool. elim queries [ [] ↦ sound [] | query ∷ earlier ↦ Result.err unavailable ];
  backfills_reply = λ queries pool. sound [];
  now = λ queries. 1700;
  display = λ s. s.message;
}

-- Two pools, with at most 4 players.
abbrev two_pools : MatchProfile Wire
two_pools =
    set_max_players_in_profile wire (record bare_profile { pools = lobby_pool ∷ lobby_pool ∷ [] }) 4

two_pools_max : get_max_players_from_profile wire two_pools ≡ some 4
two_pools_max = get-set_max_players wire _ 4 (omega arith)

abbrev nobody :
    (r : List (Match Wire) × ℕ) × (create_matches wire uuid 1 1700 two_pools lobby_pool [] [] 0
      ≡ ok r)
    × IsBatch wire 1700 lobby_pool (as_usize (min_players wire two_pools 4)) 4 [] [] r.0
nobody =
    create_matches_correct wire uuid 1 1700 two_pools lobby_pool [] [] 0 4 tt two_pools_max
      (omega arith) (omega arith) (omega arith)

first_served :
    propose_for_pool wire uuid failing 1 two_pools lobby_pool [] 0 ≡ ok (Result.ok nobody.0)
unfolding propose_for_pool query_pool collect
first_served = rw (nobody.1)

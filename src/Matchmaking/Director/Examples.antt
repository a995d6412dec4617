-- ===== src/Matchmaking/Director/Examples.antt =====
-- The director against services that grant every request but those for the fleet `down`.
use shulker.Prelude.{
  min, ℕ, ◌++◌, ◌≡◌, refl, String, false, List, [], ◌∷◌, none, some, arith, ◌==◌, if◌then◌else◌,
  length,
}
use shulker.Prelude.Dict.{Dict, get, insert}
use shulker.Outcome.{Outcome}
use shulker.Result.{Result, ok, err}
use shulker.OpenMatch.{Ticket, Match, grpc}
use shulker.Matchmaking.Extensions.{
  get_available_slots_from_backfill, get_game_server_id_from_backfill,
  set_available_slots_in_backfill, set_game_server_id_in_backfill, encode_any_i32,
  encode_any_string, try_decode_any_i32, try_decode_any_string,
}
use shulker.Matchmaking.Samples.{
  Wire, wire, uuid, ticket, bare_profile, lobby_backfill, two_tickets,
}
use shulker.Matchmaking.Queues.{PreparedQueue}
use shulker.Matchmaking.Director.{
  Status, Call, Services, tick, cancelled, FleetAllocationRequest, try_allocate_match,
  try_fetch_matches_for_queue, try_fetch_matches_for_all_queues, allocate_each, allocation_request,
  run,
}
use shulker.Matchmaking.Director.Trace.{IsJustified, start, run-IsJustified}
use shulker.Matchmaking.Director.Servers.{sent_to, fill_joins_running_server}
use shulker.Matchmaking.Batch.{fill_backfill}

abbrev unavailable : Status
unavailable = record { code = 14; message = "unavailable" }

abbrev grants : List (Call Wire) → FleetAllocationRequest → Result Status String
grants calls request = if request.name == "down" then err unavailable else ok "gs-new"

-- A match of two players with no backfill.
abbrev full_match : Match Wire
full_match = record {
  match_id = "a";
  match_profile = "shulker_lobby";
  match_function = "shulker-built-in-mmf-batch";
  tickets = two_tickets;
  extensions = [];
  backfill = none;
  allocate_gameserver = false;
}

abbrev remote : Services Wire
remote = record {
  fetch = λ calls config profile. ok (ok (some full_match) ∷ []);
  allocate = grants;
  assign = λ calls groups. ok tt;
}

abbrev queue_of : String → PreparedQueue Wire
queue_of fleet = record {
  namespace = "blue";
  fleet_ref = record { name = fleet };
  mmf_config = record { host = "mmf"; port = 50502; type_ = grpc };
  match_profile = bare_profile;
}

abbrev lobby_queues : Dict (PreparedQueue Wire)
lobby_queues = ("lobby", queue_of "lobbies") ∷ ("broken", queue_of "down") ∷ []

run-IsJustified_example :
    IsJustified wire remote (run wire remote (tick (some lobby_queues) ∷ cancelled ∷ []) []).1
run-IsJustified_example =
    run-IsJustified wire remote (tick (some lobby_queues) ∷ cancelled ∷ []) [] start

-- The round makes five calls: two queues are fetched, one of two servers is granted and assigned.
run_makes_five_calls : length (run wire remote (tick (some lobby_queues) ∷ cancelled ∷ []) []).1 ≡ 5
unfolding run try_fetch_matches_for_all_queues try_fetch_matches_for_queue allocate_each
    try_allocate_match allocation_request
run_makes_five_calls = refl

lobby_slots : get_available_slots_from_backfill wire lobby_backfill ≡ some 1
unfolding lobby_backfill set_game_server_id_in_backfill set_available_slots_in_backfill
    get_available_slots_from_backfill get insert encode_any_i32 encode_any_string try_decode_any_i32
lobby_slots = refl

lobby_server : get_game_server_id_from_backfill wire lobby_backfill ≡ some "gs-1"
unfolding lobby_backfill set_game_server_id_in_backfill set_available_slots_in_backfill
    get_game_server_id_from_backfill get insert encode_any_i32 encode_any_string
    try_decode_any_string
lobby_server = refl

fill_joins_running_server_example :
    (m : Match Wire) × (left : List (Ticket Wire)) × (n' : ℕ) × (fill_backfill wire uuid
        bare_profile lobby_backfill two_tickets 0
      ≡ Outcome.ok (m ∷ [], left, n'))
    × (m.tickets ++ left ≡ two_tickets)
    × (length m.tickets ≡ min 1 2)
    × ((try_allocate_match wire remote (queue_of "lobbies") m []).1
        ≡ sent_to wire remote "gs-1" m ∷ [])
fill_joins_running_server_example =
    fill_joins_running_server wire remote uuid (queue_of "lobbies") lobby_backfill (ticket "t1")
      (ticket "t2" ∷ []) 0 1 "gs-1" [] lobby_slots (omega arith) (omega arith) lobby_server

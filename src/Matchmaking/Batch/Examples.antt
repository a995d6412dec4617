-- ===== src/Matchmaking/Batch/Examples.antt =====
-- The batch function on concrete pools: the tests of batch.rs, and the theorems applied.
use shulker.Prelude.{
  ℕ, ◌<◌, ◌-◌, ◌≡◌, refl, Bool, true, false, List, [], ◌∷◌, map, Option, some, min, arith, length,
  All,
}
use shulker.Prelude.Int32.{as_usize}
use shulker.Prelude.Dict.{get, insert}
use shulker.Outcome.{Outcome, ok}
use shulker.OpenMatch.{Match, Backfill}
use shulker.Matchmaking.Extensions.{
  get_max_players_from_profile, get_min_players_from_profile, set_max_players_in_profile,
  set_min_players_in_profile, get_available_slots_from_backfill, set_available_slots_in_backfill,
  set_game_server_id_in_backfill, encode_any_i32, encode_any_string, try_decode_any_i32,
}
use shulker.Matchmaking.Extensions.Laws.{profile_limits_roundtrip}
use shulker.Matchmaking.Utils.{
  create_full_match, create_match_with_backfill, create_backfill_for_pool,
}
use shulker.Matchmaking.Samples.{
  Wire, wire, uuid, ticket, two_tickets, seven_tickets, bare_profile, lobby_pool, lobby_profile,
  lobby_backfill,
}
use shulker.Matchmaking.Batch.{
  Matched, fill_backfill, fill_existing_backfills, full_matches_loop, create_full_matches,
  create_last_partial_match, create_matches,
}
use shulker.Matchmaking.Batch.Conserve.{players, Splits}
use shulker.Matchmaking.Batch.Sizes.{IsFull, Fills}
use shulker.Matchmaking.Batch.Full.{create_full_matches_correct}
use shulker.Matchmaking.Batch.Backfills.{
  FillsEach, HasSlots, total_slots, fill_existing_backfills_counts, fill_existing_backfills_total,
}
use shulker.Matchmaking.Batch.Partial.{
  PartialResult, min_players, create_last_partial_match_correct,
}
use shulker.Matchmaking.Batch.Matches.{IsBatch, create_matches_correct}

lobby_max : get_max_players_from_profile wire lobby_profile ≡ some 4
unfolding lobby_profile
lobby_max = (profile_limits_roundtrip wire bare_profile 2 4 (omega arith) (omega arith)).1

lobby_slots : get_available_slots_from_backfill wire lobby_backfill ≡ some 1
unfolding lobby_backfill set_game_server_id_in_backfill set_available_slots_in_backfill
    get_available_slots_from_backfill get insert encode_any_i32 encode_any_string try_decode_any_i32
lobby_slots = refl

abbrev lobby_backfills : List (Backfill Wire)
lobby_backfills = lobby_backfill ∷ []

lobby_backfills-HasSlots : HasSlots wire lobby_backfills
lobby_backfills-HasSlots = ((1, lobby_slots), tt)

create_matches_correct_example :
    (r : List (Match Wire) × ℕ) × (create_matches wire uuid 8 1700 lobby_profile lobby_pool
        seven_tickets lobby_backfills 0
      ≡ ok r)
    × IsBatch wire 1700 lobby_pool
        (as_usize (min_players wire lobby_profile 4))
        4
        seven_tickets
        lobby_backfills
        r.0
create_matches_correct_example =
    create_matches_correct wire uuid 8 1700 lobby_profile lobby_pool seven_tickets lobby_backfills 0
      4 lobby_backfills-HasSlots lobby_max (omega arith) (omega arith) (omega arith)

abbrev sizes : Outcome (List (Match Wire) × ℕ) → List (ℕ × Bool)
sizes (ok (ms, n)) = map (λ m. (length m.tickets, m.allocate_gameserver)) ms
sizes r = []

-- One ticket joins the running server, four make a full match, two open a new server.
sizes-create_matches :
    sizes (create_matches wire uuid 8 1700 lobby_profile lobby_pool seven_tickets lobby_backfills 0)
    ≡ (1, false) ∷ (4, false) ∷ (2, true) ∷ []
unfolding create_matches fill_existing_backfills fill_backfill create_full_matches full_matches_loop
    create_last_partial_match create_match_with_backfill create_full_match create_backfill_for_pool
    lobby_profile lobby_backfill set_max_players_in_profile set_min_players_in_profile
    get_max_players_from_profile get_min_players_from_profile set_game_server_id_in_backfill
    set_available_slots_in_backfill get_available_slots_from_backfill get insert encode_any_i32
    encode_any_string try_decode_any_i32
sizes-create_matches = refl

create_full_matches_correct_example :
    (r : Matched Wire) × (create_full_matches wire uuid 8 lobby_profile seven_tickets 0 ≡ ok r)
    × Splits seven_tickets r
    × All (IsFull (as_usize 4)) r.0
    × (length r.1 < as_usize 4)
create_full_matches_correct_example =
    create_full_matches_correct wire uuid 8 lobby_profile seven_tickets 0 4 lobby_max (omega arith)
      (omega arith)

create_last_partial_match_correct_example :
    (r : Option (Match Wire) × ℕ) × (create_last_partial_match wire uuid 1700 lobby_profile
        lobby_pool two_tickets 0
      ≡ ok r)
    × PartialResult wire 1700 lobby_pool
        (as_usize (min_players wire lobby_profile 4))
        4
        two_tickets
        r.0
create_last_partial_match_correct_example =
    create_last_partial_match_correct wire uuid 1700 lobby_profile lobby_pool two_tickets 0 4
      lobby_max (omega arith)

abbrev filled : Matched Wire
filled =
    (fill_existing_backfills_total wire uuid lobby_profile lobby_backfills seven_tickets 0
      lobby_backfills-HasSlots).0

fill_existing_backfills_counts_example :
    (length (players filled.0) ≡ min (total_slots wire lobby_backfills) 7)
    × (length filled.1 ≡ 7 - total_slots wire lobby_backfills)
    × FillsEach wire lobby_backfills filled.0
fill_existing_backfills_counts_example =
    fill_existing_backfills_counts wire uuid lobby_profile lobby_backfills seven_tickets 0 filled
      (fill_existing_backfills_total wire uuid lobby_profile lobby_backfills seven_tickets 0
        lobby_backfills-HasSlots).1

abbrev proposals : List (Match Wire) × ℕ
proposals = create_matches_correct_example.0

-- A match of one player that fills up the running server.
abbrev last_place : Match Wire
last_place = record {
  match_id = "a";
  match_profile = "shulker_lobby";
  match_function = "shulker-built-in-mmf-batch";
  tickets = ticket "t1" ∷ [];
  extensions = [];
  backfill = some (set_available_slots_in_backfill wire lobby_backfill 0);
  allocate_gameserver = false;
}

last_place-Fills : Fills wire lobby_backfill last_place
last_place-Fills = record {
  slots = 1;
  had = lobby_slots;
  some_player = omega arith;
  fits = omega arith;
  given_back = refl;
  keeps_server = refl;
}

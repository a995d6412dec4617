-- ===== src/Matchmaking/Director/Trace.antt =====
-- The calls that the director makes, whatever the services reply.
use shulker.Prelude.{
  ◌≡◌, refl, String, true, false, List, [], ◌∷◌, Option, none, some, Bool-cases, inl, inr,
  Option-cases,
}
use shulker.Prelude.Dict.{Dict}
use shulker.Outcome.{Outcome, panicked, running}
use shulker.Result.{Result, ok, err, map_err, ok_or}
use shulker.OpenMatch.{Match, Backfill, Codec}
use shulker.Matchmaking.Extensions.{get_game_server_id_from_backfill, and_then}
use shulker.Matchmaking.Queues.{PreparedQueue}
use shulker.Matchmaking.Director.{
  Status, Call, fetch_matches, allocate_from_fleet, assign_tickets, Services, Effect, Event, tick,
  cancelled, rpc, backfill_without_game_server_id, needs_server, allocation_request, assignments,
  and_next, next_round, try_allocate_match, assign_match, allocate_each, after_fetch,
  try_fetch_matches_for_queue, fetch_each, try_fetch_matches_for_all_queues, run,
}

module _ {Bytes : Type 0} (codec : Codec Bytes) (services : Services Bytes) where
  -- The server that the backfill of a match runs on.
  abbrev pub RunsOn : Match Bytes → String → Type 0
  RunsOn m server =
      (b : Backfill Bytes) × (m.backfill ≡ some b)
      × (get_game_server_id_from_backfill codec b ≡ some server)

  -- A history of calls, newest first, in which tickets are assigned only to a server found for
  -- them: the one that the call just before allocated for their match, or that of its backfill.
  pub data IsJustified : List (Call Bytes) → Type 0 where
    start : IsJustified []
    fetched :
        {calls : List (Call Bytes)} (queue : PreparedQueue Bytes)
        → IsJustified calls
        → IsJustified (fetch_matches queue.mmf_config queue.match_profile ∷ calls)
    refused :
        {calls : List (Call Bytes)} (queue : PreparedQueue Bytes) (m : Match Bytes) (s : Status)
        → services.allocate calls (allocation_request queue m) ≡ err s
        → IsJustified calls
        → IsJustified (allocate_from_fleet (allocation_request queue m) ∷ calls)
    on_new_server :
        {calls : List (Call Bytes)} (queue : PreparedQueue Bytes) (m : Match Bytes)
        (server : String)
        → needs_server m ≡ true
        → services.allocate calls (allocation_request queue m) ≡ ok server
        → IsJustified calls
        → IsJustified (
            assign_tickets (assignments m server)
            ∷ allocate_from_fleet (allocation_request queue m)
            ∷ calls)
    on_running_server :
        {calls : List (Call Bytes)} (m : Match Bytes) (server : String)
        → needs_server m ≡ false
        → RunsOn m server
        → IsJustified calls
        → IsJustified (assign_tickets (assignments m server) ∷ calls)

  allocated-IsJustified :
      (queue : PreparedQueue Bytes) (m : Match Bytes) (calls : List (Call Bytes))
      (reply : Result Status String)
      → needs_server m ≡ true
      → services.allocate calls (allocation_request queue m) ≡ reply
      → IsJustified calls
      → IsJustified
          (assign_match codec services m
            (map_err rpc reply)
            (allocate_from_fleet (allocation_request queue m) ∷ calls)).1
  unfolding assign_match
  allocated-IsJustified queue m calls (ok server) needs e h = on_new_server queue m server needs e h
  allocated-IsJustified queue m calls (err s) needs e h = refused queue m s e h

  existing-IsJustified :
      (m : Match Bytes) (calls : List (Call Bytes)) (o : Option (Backfill Bytes))
      → m.backfill ≡ o
      → needs_server m ≡ false
      → IsJustified calls
      → IsJustified
          (assign_match codec services m
            (ok_or
              (and_then o (get_game_server_id_from_backfill codec))
              backfill_without_game_server_id)
            calls).1
  unfolding assign_match
  existing-IsJustified m calls none e needs h = h
  existing-IsJustified m calls (some b) e needs h =
      elim (Option-cases (get_game_server_id_from_backfill codec b)) [
        | inl missing ↦ rw (missing, assign_match) h
        | inr (server, found) ↦
            rw (found, assign_match) (on_running_server m server needs (b, e, found) h)
      ]

  try_allocate_match-IsJustified :
      (queue : PreparedQueue Bytes) (m : Match Bytes) (calls : List (Call Bytes))
      → IsJustified calls
      → IsJustified (try_allocate_match codec services queue m calls).1
  unfolding try_allocate_match
  try_allocate_match-IsJustified queue m calls h = elim (Bool-cases (needs_server m)) [
    | inl new ↦ rw (new, try_allocate_match) (allocated-IsJustified queue m calls _ new refl h)
    | inr old ↦ rw (old, try_allocate_match) (existing-IsJustified m calls m.backfill refl old h)
  ]

  and_next-IsJustified :
      (r : Effect Bytes) (next : List (Call Bytes) → Effect Bytes)
      → IsJustified r.1
      → ((calls : List (Call Bytes)) → IsJustified calls → IsJustified (next calls).1)
      → IsJustified (and_next r next).1
  and_next-IsJustified (Outcome.ok (ok done), calls) next h k = k calls h
  and_next-IsJustified (Outcome.ok (err e), calls) next h k = h
  and_next-IsJustified (panicked, calls) next h k = h
  and_next-IsJustified (running, calls) next h k = h

  allocate_each-IsJustified :
      (queue : PreparedQueue Bytes) (items : List (Result Status (Option (Match Bytes))))
      (calls : List (Call Bytes))
      → IsJustified calls
      → IsJustified (allocate_each codec services queue items calls).1
  unfolding allocate_each
  allocate_each-IsJustified queue [] calls h = h
  allocate_each-IsJustified queue (err s ∷ items) calls h = h
  allocate_each-IsJustified queue (ok none ∷ items) calls h = h
  allocate_each-IsJustified queue (ok (some m) ∷ items) calls h =
      and_next-IsJustified (try_allocate_match codec services queue m calls) _
        (try_allocate_match-IsJustified queue m calls h) (allocate_each-IsJustified queue items)

  try_fetch_matches_for_queue-IsJustified :
      (queue : PreparedQueue Bytes) (calls : List (Call Bytes))
      → IsJustified calls
      → IsJustified (try_fetch_matches_for_queue codec services queue calls).1
  unfolding try_fetch_matches_for_queue
  try_fetch_matches_for_queue-IsJustified queue calls h =
      go (services.fetch calls queue.mmf_config queue.match_profile)
    where
      go :
          (reply : Result Status (List (Result Status (Option (Match Bytes)))))
          → IsJustified
              (after_fetch codec services queue reply
                (fetch_matches queue.mmf_config queue.match_profile ∷ calls)).1
      go (ok items) = allocate_each-IsJustified queue items _ (fetched queue h)
      go (err s) = fetched queue h

  fetch_each-IsJustified :
      (queues : Dict (PreparedQueue Bytes)) (calls : List (Call Bytes))
      → IsJustified calls
      → IsJustified (fetch_each codec services queues calls).1
  unfolding fetch_each
  fetch_each-IsJustified [] calls h = h
  fetch_each-IsJustified ((name, queue) ∷ queues) calls h =
      and_next-IsJustified (try_fetch_matches_for_queue codec services queue calls) _
        (try_fetch_matches_for_queue-IsJustified queue calls h) (fetch_each-IsJustified queues)

  round-IsJustified :
      (registry : Option (Dict (PreparedQueue Bytes))) (calls : List (Call Bytes))
      → IsJustified calls
      → IsJustified (try_fetch_matches_for_all_queues codec services registry calls).1
  unfolding try_fetch_matches_for_all_queues
  round-IsJustified none calls h = h
  round-IsJustified (some queues) calls h = fetch_each-IsJustified queues calls h

  next_round-IsJustified :
      (r : Effect Bytes) (next : List (Call Bytes) → Outcome (Unit {0}) × List (Call Bytes))
      → IsJustified r.1
      → ((calls : List (Call Bytes)) → IsJustified calls → IsJustified (next calls).1)
      → IsJustified (next_round r next).1
  next_round-IsJustified (Outcome.ok result, calls) next h k = k calls h
  next_round-IsJustified (panicked, calls) next h k = h
  next_round-IsJustified (running, calls) next h k = h

  -- Whatever wakes the director and whatever the services reply, from a justified history it makes
  -- only justified calls: it assigns the tickets of a match only to the server that the call before
  -- allocated for this match, or, for a match that needs none, to the server of its backfill; and a
  -- server that it was granted always has the tickets of its match assigned in the next call.
  pub run-IsJustified :
      (events : List (Event Bytes)) (calls : List (Call Bytes))
      → IsJustified calls
      → IsJustified (run codec services events calls).1
  unfolding run
  run-IsJustified [] calls h = h
  run-IsJustified (cancelled ∷ events) calls h = h
  run-IsJustified (tick registry ∷ events) calls h =
      next_round-IsJustified (try_fetch_matches_for_all_queues codec services registry calls) _
        (round-IsJustified registry calls h) (run-IsJustified events)

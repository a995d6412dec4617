-- ===== src/Matchmaking/Director.antt =====
-- packages/shulker-addon-matchmaking/src/director.rs: the director fetches matches for every queue,
-- finds each a game server and assigns its tickets. The remote services (Open Match's backend and
-- Shulker's SDK) are `Services`: each reply is a function of the calls made before, newest first.
-- The items of a fetched stream are fixed when the stream is opened.
pub mod Trace
pub mod Servers
pub mod Examples
use shulker.Prelude.{
  ℕ, String, Bool, true, false, ◌||◌, List, [], ◌∷◌, map, Option, none, some, if◌then◌else◌,
}
use shulker.Prelude.Dict.{Dict}
use shulker.Outcome.{Outcome, panicked, running}
use shulker.Result.{Result, ok, err, map_err, ok_or}
use shulker.OpenMatch.{Any, FunctionConfig, MatchProfile, Match, Backfill, Codec, Assignment}
use shulker.Matchmaking.Extensions.{get_game_server_id_from_backfill, and_then}
use shulker.Matchmaking.Queues.{PreparedQueue}

-- A gRPC status.
pub record Status : Type 0 where
  pub code : ℕ
  pub message : String

pub data DirectorError : Type 0 where
  rpc : Status → DirectorError
  backfill_without_game_server_id : DirectorError
  registry_locked : DirectorError

pub record FleetAllocationRequest : Type 0 where
  pub namespace : String
  pub name : String
  pub summon_if_needed : Bool
  pub custom_annotations : Dict String

pub record AssignmentGroup (Bytes : Type 0) : Type 0 where
  pub ticket_ids : List String
  pub assignment : Option (Assignment Bytes)

pub data Call (Bytes : Type 0) : Type 0 where
  fetch_matches : FunctionConfig → MatchProfile Bytes → Call Bytes
  allocate_from_fleet : FleetAllocationRequest → Call Bytes
  assign_tickets : List (AssignmentGroup Bytes) → Call Bytes

pub record Services (Bytes : Type 0) : Type 0 where
  pub fetch :
      List (Call Bytes)
      → FunctionConfig
      → MatchProfile Bytes
      → Result Status (List (Result Status (Option (Match Bytes))))
  pub allocate : List (Call Bytes) → FleetAllocationRequest → Result Status String
  pub assign : List (Call Bytes) → List (AssignmentGroup Bytes) → Result Status (Unit {0})

abbrev is_none {ℓ} : {A : Type ℓ} → Option A → Bool
is_none none = true
is_none (some a) = false

abbrev backfill_annotations : {Bytes : Type 0} → Option (Backfill Bytes) → Dict String
backfill_annotations none = []
backfill_annotations (some backfill) = ("matchmaking.shulkermc.io/backfill", backfill.id) ∷ []

unfoldable pub needs_server : {Bytes : Type 0} → Match Bytes → Bool
needs_server m = m.allocate_gameserver || is_none m.backfill

pub allocation_request :
    {Bytes : Type 0} → PreparedQueue Bytes → Match Bytes → FleetAllocationRequest
allocation_request queue m = record {
  namespace = queue.namespace;
  name = queue.fleet_ref.name;
  summon_if_needed = true;
  custom_annotations = backfill_annotations m.backfill;
}

pub assignments : {Bytes : Type 0} → Match Bytes → String → List (AssignmentGroup Bytes)
assignments m game_server_id =
    record {
      ticket_ids = map (λ t. t.id) m.tickets;
      assignment = some (record { connection = game_server_id; extensions = [] });
    }
    ∷ []

-- How a step went, a panic included, and the calls made up to then.
abbrev pub Effect : Type 0 → Type 0
Effect Bytes = Outcome (Result DirectorError (Unit {0})) × List (Call Bytes)

-- `?` after a step: the rest runs only if the step succeeded.
abbrev pub and_next :
    {Bytes : Type 0} → Effect Bytes → (List (Call Bytes) → Effect Bytes) → Effect Bytes
and_next (Outcome.ok (ok done), calls) next = next calls
and_next (Outcome.ok (err e), calls) next = (Outcome.ok (err e), calls)
and_next (panicked, calls) next = (panicked, calls)
and_next (running, calls) next = (running, calls)

module _ {Bytes : Type 0} (codec : Codec Bytes) (services : Services Bytes) where
  -- The game server of a match: a newly allocated one, or that of its backfill.
  find_game_server :
      PreparedQueue Bytes
      → Match Bytes
      → List (Call Bytes)
      → Result DirectorError String × List (Call Bytes)
  unfolding needs_server
  find_game_server queue m calls =
      if needs_server m
      then (
        map_err rpc (services.allocate calls (allocation_request queue m)),
        allocate_from_fleet (allocation_request queue m) ∷ calls,
      )
      else (
        ok_or (and_then m.backfill (get_game_server_id_from_backfill codec))
            backfill_without_game_server_id,
        calls,
      )

  assign_match : Match Bytes → Result DirectorError String → List (Call Bytes) → Effect Bytes
  assign_match m (err e) calls = (Outcome.ok (err e), calls)
  assign_match m (ok game_server_id) calls = (
    Outcome.ok (map_err rpc (services.assign calls (assignments m game_server_id))),
    assign_tickets (assignments m game_server_id) ∷ calls,
  )

  pub try_allocate_match : PreparedQueue Bytes → Match Bytes → List (Call Bytes) → Effect Bytes
  unfolding find_game_server assign_match
  try_allocate_match queue m calls =
      let (game_server_id, calls') = find_game_server queue m calls in
      assign_match m game_server_id calls'

  -- The loop over a fetched stream: a broken item, or one with no match, is an `unwrap` that panics.
  pub allocate_each :
      PreparedQueue Bytes
      → List (Result Status (Option (Match Bytes)))
      → List (Call Bytes)
      → Effect Bytes
  allocate_each queue [] calls = (Outcome.ok (ok tt), calls)
  allocate_each queue (err s ∷ items) calls = (panicked, calls)
  allocate_each queue (ok none ∷ items) calls = (panicked, calls)
  allocate_each queue (ok (some m) ∷ items) calls =
      and_next (try_allocate_match queue m calls) (allocate_each queue items)

  after_fetch :
      PreparedQueue Bytes
      → Result Status (List (Result Status (Option (Match Bytes))))
      → List (Call Bytes)
      → Effect Bytes
  after_fetch queue (ok items) calls = allocate_each queue items calls
  after_fetch queue (err s) calls = (Outcome.ok (err (rpc s)), calls)

  pub try_fetch_matches_for_queue : PreparedQueue Bytes → List (Call Bytes) → Effect Bytes
  unfolding after_fetch
  try_fetch_matches_for_queue queue calls =
      after_fetch queue (services.fetch calls queue.mmf_config queue.match_profile)
        (fetch_matches queue.mmf_config queue.match_profile ∷ calls)

  pub fetch_each : Dict (PreparedQueue Bytes) → List (Call Bytes) → Effect Bytes
  fetch_each [] calls = (Outcome.ok (ok tt), calls)
  fetch_each ((name, queue) ∷ queues) calls =
      and_next (try_fetch_matches_for_queue queue calls) (fetch_each queues)

  -- `none` for a registry that is locked at this moment.
  pub try_fetch_matches_for_all_queues :
      Option (Dict (PreparedQueue Bytes)) → List (Call Bytes) → Effect Bytes
  unfolding fetch_each
  try_fetch_matches_for_all_queues none calls = (Outcome.ok (err registry_locked), calls)
  try_fetch_matches_for_all_queues (some queues) calls = fetch_each queues calls

-- What the loop of `run` wakes up for: its interval, with the registry found at that moment, or the
-- cancellation.
pub data Event (Bytes : Type 0) : Type 0 where
  tick : Option (Dict (PreparedQueue Bytes)) → Event Bytes
  cancelled : Event Bytes

-- A failed round is logged and the loop goes on; a panic ends the task.
abbrev pub next_round :
    {Bytes : Type 0}
    → Effect Bytes
    → (List (Call Bytes) → Outcome (Unit {0}) × List (Call Bytes))
    → Outcome (Unit {0}) × List (Call Bytes)
next_round (Outcome.ok result, calls) next = next calls
next_round (panicked, calls) next = (panicked, calls)
next_round (running, calls) next = (running, calls)

module _ {Bytes : Type 0} (codec : Codec Bytes) (services : Services Bytes) where
  -- The task: it is still running when it has handled all events, done once it is cancelled.
  pub run : List (Event Bytes) → List (Call Bytes) → Outcome (Unit {0}) × List (Call Bytes)
  run [] calls = (running, calls)
  run (cancelled ∷ events) calls = (Outcome.ok tt, calls)
  run (tick registry ∷ events) calls =
      next_round (try_fetch_matches_for_all_queues codec services registry calls) (run events)

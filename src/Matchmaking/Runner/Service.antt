-- ===== src/Matchmaking/Runner/Service.antt =====
-- What the matchmaking service replies, from the streams it reads to the proposals it sends.
use shulker.Prelude.{
  ℕ, zero, suc, ◌<◌, ◌^◌, ◌≡◌, refl, String, List, [], ◌∷◌, ◌++◌, map, some, take, length,
  append-nil,
}
use shulker.Prelude.Text.{◌⧺◌}
use shulker.Outcome.{ok}
use shulker.Result.{Result}
use shulker.OpenMatch.{Ticket, Pool, MatchProfile, Backfill, Match, Codec}
use shulker.Matchmaking.Director.{Status}
use shulker.Matchmaking.Queues.{MatchmakingQueue, create_match_profile}
use shulker.Matchmaking.Queues.Service.{
  queue_served, least_players, pool_of, pools-create_match_profile,
}
use shulker.Matchmaking.Batch.Backfills.{HasSlots}
use shulker.Matchmaking.Batch.Matches.{IsBatch}
use shulker.Matchmaking.Runner.{
  Query, query_tickets, query_backfills, Stream, QueryService, RunResponse, collect, internal,
  query_pool, create_proposal_reply_stream, propose_for_pool, propose_for_pools, run,
}

abbrev joined {ℓ} : {A : Type ℓ} → List (List A) → List A
joined [] = []
joined (chunk ∷ chunks) = chunk ++ joined chunks

-- A stream whose chunks all arrive.
abbrev pub sound : {A : Type 0} → List (List A) → Stream A
sound chunks = Result.ok (map Result.ok chunks)

collect_sound :
    {A : Type 0} (chunks : List (List A)) → collect (map Result.ok chunks) ≡ ok (joined chunks)
unfolding collect
collect_sound [] = refl
collect_sound (chunk ∷ chunks) = rw (collect_sound chunks)

query_pool-sound :
    {A : Type 0} (message : String) (display : Status → String) (chunks : List (List A))
    → query_pool message display (sound chunks) ≡ ok (Result.ok (joined chunks))
unfolding query_pool
query_pool-sound message display chunks = rw (collect_sound chunks)

abbrev pub reply : {Bytes : Type 0} → Match Bytes → Result Status (RunResponse Bytes)
reply m = Result.ok (record { proposal = some m })

create_proposal_reply_stream_eq :
    {Bytes : Type 0} (accepted : ℕ) (ms : List (Match Bytes))
    → create_proposal_reply_stream accepted ms ≡ map reply (take accepted ms)
unfolding create_proposal_reply_stream
create_proposal_reply_stream_eq zero ms = refl
create_proposal_reply_stream_eq (suc accepted) [] = refl
create_proposal_reply_stream_eq (suc accepted) (m ∷ ms) =
    rw (create_proposal_reply_stream_eq accepted ms)

module _ {Bytes : Type 0} (codec : Codec Bytes) (uuid : ℕ → String) (service : QueryService Bytes)
    (fuel : ℕ) where
  -- A queue of positive 31-bit limits is served from end to end: when the query service streams all
  -- tickets and backfills of the queue's pool, in any chunks, and the backfills declare their free
  -- slots, the function called with the queue's profile replies with proposals, as many as the
  -- client takes, that are a batch for the queue's own limits; for more fuel than tickets.
  pub run_serves_queue :
      (q : MatchmakingQueue) (queries : List Query) (n accepted : ℕ)
      (tickets : List (List (Ticket Bytes))) (backfills : List (List (Backfill Bytes)))
      → service.tickets_reply queries (pool_of q) ≡ sound tickets
      → service.backfills_reply (query_tickets (pool_of q) ∷ queries) (pool_of q) ≡ sound backfills
      → HasSlots codec (joined backfills)
      → 0 < q.spec.max_players
      → q.spec.max_players < 2 ^ 31
      → least_players q < 2 ^ 31
      → length (joined tickets) < fuel
      → (ms : List (Match Bytes)) × (run codec uuid service fuel accepted
            (some (create_match_profile codec q))
            queries
            n
          ≡ ok (Result.ok (map reply (take accepted ms))))
        × IsBatch codec
            (service.now (query_backfills (pool_of q) ∷ query_tickets (pool_of q) ∷ queries))
            (pool_of q)
            (least_players q)
            q.spec.max_players
            (joined tickets)
            (joined backfills)
            ms
  unfolding run propose_for_pools propose_for_pool
  run_serves_queue q queries n accepted tickets backfills ts bs slots pos small least enough =
      let pool = pool_of q in
      let now = service.now (query_backfills pool ∷ query_tickets pool ∷ queries) in
      let ((ms, n'), e, good) =
        queue_served codec uuid q fuel now pool (joined tickets) (joined backfills) n pos small
          least slots enough in
      (
        ms,
        rw (
          pools-create_match_profile codec q,
          propose_for_pools,
          propose_for_pool,
          ts,
          query_pool-sound "Failed to query tickets: " service.display tickets,
          bs,
          query_pool-sound "Failed to query backfills: " service.display backfills,
          e,
          append-nil ms,
          create_proposal_reply_stream_eq accepted ms,
        ),
        good,
      )

  propose_for_pool_fails :
      (profile : MatchProfile Bytes) (pool : Pool) (queries : List Query) (n : ℕ) (s : Status)
      → service.tickets_reply queries pool ≡ Result.err s
      → propose_for_pool codec uuid service fuel profile pool queries n
        ≡ ok (Result.err (internal ("Failed to query tickets: " ⧺ service.display s)))
  unfolding propose_for_pool query_pool
  propose_for_pool_fails profile pool queries n s failed = rw (failed, query_pool)

  -- When the first pool of a profile is served and the tickets of the second cannot be queried, the
  -- whole call fails with an internal error, and the proposals for the first pool are lost.
  run_fails :
      (profile : MatchProfile Bytes) (first second : Pool) (pools : List Pool)
      (queries : List Query) (n accepted : ℕ) (r : List (Match Bytes) × ℕ) (s : Status)
      → profile.pools ≡ first ∷ second ∷ pools
      → propose_for_pool codec uuid service fuel profile first queries n ≡ ok (Result.ok r)
      → service.tickets_reply (query_backfills first ∷ query_tickets first ∷ queries) second
        ≡ Result.err s
      → run codec uuid service fuel accepted (some profile) queries n
        ≡ ok (Result.err (internal ("Failed to query tickets: " ⧺ service.display s)))
  unfolding run propose_for_pools
  run_fails profile first second pools queries n accepted r s two served failed =
      rw (two, propose_for_pools, served, propose_for_pool_fails profile second _ r.1 s failed)

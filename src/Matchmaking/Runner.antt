-- ===== src/Matchmaking/Runner.antt =====
-- packages/shulker-addon-matchmaking/src/mmf/runner.rs: the service around the batch function. It
-- asks Open Match's query service for the tickets and the backfills of each pool; each reply is a
-- function of the queries made before, newest first, and so is the clock. A reply is a stream of
-- chunks, each of which can fail.
pub mod Service
pub mod Examples
use shulker.Prelude.{ℕ, zero, suc, String, List, [], ◌∷◌, ◌++◌, Option, none, some}
use shulker.Prelude.Text.{◌⧺◌}
use shulker.Outcome.{Outcome, ok, panicked, running, ◌>>=◌, unwrap}
use shulker.Fallible.{and_then}
use shulker.Result.{Result}
use shulker.OpenMatch.{Ticket, Pool, MatchProfile, Backfill, Match, Codec}
use shulker.Matchmaking.Director.{Status}
use shulker.Matchmaking.Batch.{create_matches}

pub data Query : Type 0 where
  query_tickets : Pool → Query
  query_backfills : Pool → Query

-- The reply to a query: an error, or the chunks of a stream.
abbrev pub Stream : Type 0 → Type 0
Stream A = Result Status (List (Result Status (List A)))

pub record QueryService (Bytes : Type 0) : Type 0 where
  pub tickets_reply : List Query → Pool → Stream (Ticket Bytes)
  pub backfills_reply : List Query → Pool → Stream (Backfill Bytes)
  pub now : List Query → ℕ
  pub display : Status → String

pub record RunResponse (Bytes : Type 0) : Type 0 where
  pub proposal : Option (Match Bytes)

-- The loop over a stream: a chunk that failed is an `unwrap` that panics.
pub collect : {A : Type 0} → List (Result Status (List A)) → Outcome (List A)
collect [] = ok []
collect (Result.err s ∷ chunks) = panicked
collect (Result.ok items ∷ chunks) = do rest ← collect chunks; ok (items ++ rest)

-- `tonic::Status::internal`.
abbrev pub internal : String → Status
internal message = record { code = 13; message = message }

pub query_pool :
    {A : Type 0} → String → (Status → String) → Stream A → Outcome (Result Status (List A))
unfolding collect
query_pool message display (Result.err s) = ok (Result.err (internal (message ⧺ display s)))
query_pool message display (Result.ok chunks) = do items ← collect chunks; ok (Result.ok items)

-- The task that sends the proposals, of which the client takes at most so many before it closes.
pub create_proposal_reply_stream :
    {Bytes : Type 0} → ℕ → List (Match Bytes) → List (Result Status (RunResponse Bytes))
create_proposal_reply_stream zero matches = []
create_proposal_reply_stream (suc accepted) [] = []
create_proposal_reply_stream (suc accepted) (m ∷ matches) =
    Result.ok (record { proposal = some m }) ∷ create_proposal_reply_stream accepted matches

module _ {Bytes : Type 0} (codec : Codec Bytes) (uuid : ℕ → String) (service : QueryService Bytes)
    (fuel : ℕ) where
  -- One round of the loop over the pools.
  pub propose_for_pool :
      MatchProfile Bytes → Pool → List Query → ℕ → Outcome (Result Status (List (Match Bytes) × ℕ))
  propose_for_pool profile pool queries n =
      and_then
        (query_pool "Failed to query tickets: " service.display
          (service.tickets_reply queries pool))
        (λ tickets.
          and_then
            (query_pool "Failed to query backfills: " service.display
              (service.backfills_reply (query_tickets pool ∷ queries) pool))
            (λ backfills. do
              matches ←
                  create_matches codec uuid fuel
                    (service.now (query_backfills pool ∷ query_tickets pool ∷ queries)) profile pool
                    tickets backfills n
              ok (Result.ok matches)))

  pub propose_for_pools :
      MatchProfile Bytes → List Pool → List Query → ℕ → Outcome (Result Status (List (Match Bytes)))
  propose_for_pools profile [] queries n = ok (Result.ok [])
  propose_for_pools profile (pool ∷ pools) queries n =
      and_then (propose_for_pool profile pool queries n) (λ r.
        and_then
          (propose_for_pools profile pools (query_backfills pool ∷ query_tickets pool ∷ queries)
            r.1)
          (λ proposals. ok (Result.ok (r.0 ++ proposals))))

  pub run :
      ℕ
      → Option (MatchProfile Bytes)
      → List Query
      → ℕ
      → Outcome (Result Status (List (Result Status (RunResponse Bytes))))
  run accepted profile queries n = do
    asked ← unwrap profile
    and_then (propose_for_pools asked asked.pools queries n)
        (λ proposals. ok (Result.ok (create_proposal_reply_stream accepted proposals)))

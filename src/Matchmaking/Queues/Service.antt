-- ===== src/Matchmaking/Queues/Service.antt =====
-- The limits of a queue, from its resource through its profile to the batch function.
use mathlib.Core.Option
use shulker.Prelude.{
  ℕ, ◌<◌, ◌^◌, ◌≡◌, ap, ◌∙◌, subst, refl, String, List, [], ◌∷◌, Option, none, some, arith, length,
}
use shulker.Prelude.Int32.{as_i32, as_usize, as_usize_pos}
use shulker.Outcome.{ok, running}
use shulker.OpenMatch.{Ticket, Pool, MatchProfile, Match, Backfill, Codec}
use shulker.Matchmaking.Batch.{create_full_matches, create_matches, unwrap_or}
use shulker.Matchmaking.Batch.Full.{create_full_matches_diverges}
use shulker.Matchmaking.Batch.Backfills.{HasSlots}
use shulker.Matchmaking.Batch.Partial.{min_players}
use shulker.Matchmaking.Batch.Matches.{IsBatch, create_matches_correct}
use shulker.Matchmaking.Extensions.{set_min_players_in_profile, set_max_players_in_profile}
use shulker.Matchmaking.Queues.{MatchmakingQueue, create_match_profile, set_min_if_given}
use shulker.Matchmaking.Queues.Laws.{create_match_profile_limits}

-- The least players of a match of a queue: its minimum, or its maximum where none is given.
abbrev pub least_players : MatchmakingQueue → ℕ
least_players q = unwrap_or q.spec.min_players q.spec.max_players

-- The one pool of a queue's profile.
abbrev pub pool_of : MatchmakingQueue → Pool
pool_of q = record { name = "pool_default"; tag_present_filters = record { tag = q.name_any } ∷ [] }

set_min_if_given-pools :
    {Bytes : Type 0} (codec : Codec Bytes) (o : Option ℕ) (p : MatchProfile Bytes)
    → (set_min_if_given codec o p).pools ≡ p.pools
unfolding set_min_if_given set_min_players_in_profile
set_min_if_given-pools codec none p = refl
set_min_if_given-pools codec (some lo) p = refl

pub pools-create_match_profile :
    {Bytes : Type 0} (codec : Codec Bytes) (q : MatchmakingQueue)
    → (create_match_profile codec q).pools ≡ pool_of q ∷ []
unfolding create_match_profile set_max_players_in_profile
pools-create_match_profile codec q = set_min_if_given-pools codec q.spec.min_players _

module _ {Bytes : Type 0} (codec : Codec Bytes) (uuid : ℕ → String) where
  min_of_profile :
      (q : MatchmakingQueue)
      → q.spec.max_players < 2 ^ 31
      → least_players q < 2 ^ 31
      → as_usize (min_players codec (create_match_profile codec q) q.spec.max_players)
        ≡ least_players q
  min_of_profile q small least =
      rw (create_match_profile_limits codec q).1 (go q.spec.min_players least)
    where
      go :
          (o : Option ℕ)
          → unwrap_or o q.spec.max_players < 2 ^ 31
          → as_usize (unwrap_or (Option.map as_i32 o) q.spec.max_players)
            ≡ unwrap_or o q.spec.max_players
      go none h = as_usize_pos _ h
      go (some lo) h = let e : as_i32 lo ≡ lo = omega arith in rw e (as_usize_pos lo h)

  -- A queue whose limits are positive 31-bit numbers is served: on the profile made for it, with
  -- backfills that declare their free slots and more fuel than tickets, the batch function returns
  -- proposals within the queue's own limits.
  pub queue_served :
      (q : MatchmakingQueue) (fuel now : ℕ) (pool : Pool) (ts : List (Ticket Bytes))
      (bs : List (Backfill Bytes)) (n : ℕ)
      → 0 < q.spec.max_players
      → q.spec.max_players < 2 ^ 31
      → least_players q < 2 ^ 31
      → HasSlots codec bs
      → length ts < fuel
      → (r : List (Match Bytes) × ℕ) × (create_matches codec uuid fuel now
            (create_match_profile codec q)
            pool
            ts
            bs
            n
          ≡ ok r)
        × IsBatch codec now pool (least_players q) q.spec.max_players ts bs r.0
  queue_served q fuel now pool ts bs n pos small least slots enough =
      let same : as_i32 q.spec.max_players ≡ q.spec.max_players = omega arith in
      let (r, e, good) =
        create_matches_correct codec uuid fuel now (create_match_profile codec q) pool ts bs n
          q.spec.max_players slots ((create_match_profile_limits codec q).0 ∙ ap some same) pos
          small enough in
      (
        r,
        e,
        subst (λ l. IsBatch codec now pool l q.spec.max_players ts bs r.0)
            (min_of_profile q small least) good,
      )

  -- A queue whose maximum is 0 hangs its matchmaking function: whatever the tickets, the loop over
  -- full matches is still running after any number of rounds.
  pub queue_of_zero_hangs :
      (q : MatchmakingQueue) (fuel : ℕ) (ts : List (Ticket Bytes)) (n : ℕ)
      → q.spec.max_players ≡ 0
      → create_full_matches codec uuid fuel (create_match_profile codec q) ts n ≡ running
  queue_of_zero_hangs q fuel ts n zero_max =
      create_full_matches_diverges codec uuid fuel _ ts n
        ((create_match_profile_limits codec q).0 ∙ ap (λ v. some (as_i32 v)) zero_max)

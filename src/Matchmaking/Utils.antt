-- ===== src/Matchmaking/Utils.antt =====
-- packages/shulker-addon-matchmaking/src/mmf/utils.rs: how matches and backfills are made. A fresh
-- identifier (`Uuid::new_v4`) is the next of a stream `uuid`, whose position is passed along; the
-- clock (`time::now`) is read once, as the argument `now`.
use shulker.Prelude.{ℕ, suc, String, false, Bool, List, [], map, none, some}
use shulker.Prelude.Int32.{I32}
use shulker.OpenMatch.{Ticket, Pool, MatchProfile, Backfill, Match, Codec}
use shulker.Matchmaking.Extensions.{set_available_slots_in_backfill}

module _ {Bytes : Type 0} (uuid : ℕ → String) where
  unfoldable pub create_full_match :
      MatchProfile Bytes → String → List (Ticket Bytes) → ℕ → Match Bytes × ℕ
  create_full_match profile function_name tickets n = (
    record {
      match_id = uuid n;
      match_profile = profile.name;
      match_function = function_name;
      tickets = tickets;
      extensions = [];
      backfill = none;
      allocate_gameserver = false;
    },
    suc n,
  )

  unfoldable pub create_match_with_backfill :
      MatchProfile Bytes
      → String
      → List (Ticket Bytes)
      → Backfill Bytes
      → Bool
      → ℕ
      → Match Bytes × ℕ
  unfolding create_full_match
  create_match_with_backfill profile function_name tickets backfill allocate_gameserver n =
      let (created_match, n') = create_full_match profile function_name tickets n in
      (
        record created_match {
          backfill = some backfill;
          allocate_gameserver = allocate_gameserver;
        },
        n',
      )

unfoldable pub create_backfill_for_pool :
    {Bytes : Type 0} → Codec Bytes → ℕ → Pool → I32 → Backfill Bytes
create_backfill_for_pool codec now pool remaining_slots =
    set_available_slots_in_backfill codec
      (record {
        id = "";
        search_fields = some (record { tags = map (λ f. f.tag) pool.tag_present_filters });
        extensions = [];
        persistent_field = [];
        create_time = some (record { seconds = now; nanos = 0 });
        generation = 0;
      })
      remaining_slots

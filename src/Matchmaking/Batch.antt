-- ===== src/Matchmaking/Batch.antt =====
-- packages/shulker-addon-matchmaking/src/mmf/batch.rs: the first-come first-served matchmaking
-- function. `uuid` and the position `n` supply the match identifiers (Matchmaking/Utils), `now` is
-- the clock. The loop of `create_full_matches` runs on fuel; the other loops are over lists.
pub mod Conserve
pub mod Sizes
pub mod Full
pub mod Partial
pub mod Identifiers
pub mod Matches
pub mod Examples
pub mod Backfills
use shulker.Prelude.{
  ℕ, zero, suc, String, Bool, true, false, List, [], ◌∷◌, ◌++◌, Option, none, some, min, length,
  is_empty, take, drop, ltb, leb, if◌then◌else◌,
}
use shulker.Prelude.Int32.{I32, as_usize, as_i32, sub_i32}
use shulker.Outcome.{Outcome, ok, panicked, running, ◌>>=◌, unwrap}
use shulker.OpenMatch.{Ticket, Pool, MatchProfile, Backfill, Match, Codec}
use shulker.Matchmaking.Extensions.{
  get_available_slots_from_backfill, get_max_players_from_profile, get_min_players_from_profile,
  set_available_slots_in_backfill,
}
use shulker.Matchmaking.Utils.{
  create_full_match, create_match_with_backfill, create_backfill_for_pool,
}

abbrev pub mmf_name : String
mmf_name = "shulker-built-in-mmf-batch"

abbrev pub unwrap_or {ℓ} : {A : Type ℓ} → Option A → A → A
unwrap_or none d = d
unwrap_or (some a) d = a

abbrev pub option_to_list {ℓ} : {A : Type ℓ} → Option A → List A
option_to_list none = []
option_to_list (some a) = a ∷ []

-- The matches made, the tickets left, and the next position in the identifiers.
abbrev pub Matched : Type 0 → Type 0
Matched Bytes = List (Match Bytes) × List (Ticket Bytes) × ℕ

module _ {Bytes : Type 0} (codec : Codec Bytes) (uuid : ℕ → String) where
  -- One round of the loop of `fill_existing_backfills`.
  pub fill_backfill :
      MatchProfile Bytes → Backfill Bytes → List (Ticket Bytes) → ℕ → Outcome (Matched Bytes)
  fill_backfill profile backfill tickets n = do
    available_slots ← unwrap (get_available_slots_from_backfill codec backfill)
    let tickets_to_drain = min (as_usize available_slots) (length tickets)
    let match_tickets = take tickets_to_drain tickets
    let remaining_slots = sub_i32 available_slots (as_i32 (length match_tickets))
    let filled = set_available_slots_in_backfill codec backfill remaining_slots
    let (created_match, n') =
        create_match_with_backfill uuid profile mmf_name match_tickets filled false n
    if is_empty match_tickets
        then ok ([], drop tickets_to_drain tickets, n)
        else ok (created_match ∷ [], drop tickets_to_drain tickets, n')

  pub fill_existing_backfills :
      MatchProfile Bytes → List (Backfill Bytes) → List (Ticket Bytes) → ℕ → Outcome (Matched Bytes)
  fill_existing_backfills profile [] tickets n = ok ([], tickets, n)
  fill_existing_backfills profile (backfill ∷ backfills) tickets n = do
    (made, left, n') ← fill_backfill profile backfill tickets n
    (matches, rest, n'') ← fill_existing_backfills profile backfills left n'
    ok (made ++ matches, rest, n'')

  -- The `while` loop of `create_full_matches`, for matches of `size` players.
  pub full_matches_loop :
      ℕ → MatchProfile Bytes → ℕ → List (Ticket Bytes) → ℕ → Outcome (Matched Bytes)
  full_matches_loop zero profile size tickets n = running
  full_matches_loop (suc fuel) profile size tickets n = elim (leb size (length tickets)) [
    | true ↦ do
      let (created_match, n') = create_full_match uuid profile mmf_name (take size tickets) n
      (matches, rest, n'') ← full_matches_loop fuel profile size (drop size tickets) n'
      ok (created_match ∷ matches, rest, n'')
    | false ↦ ok ([], tickets, n)
  ]

  pub create_full_matches :
      ℕ → MatchProfile Bytes → List (Ticket Bytes) → ℕ → Outcome (Matched Bytes)
  create_full_matches fuel profile tickets n = do
    max_players_per_match ← unwrap (get_max_players_from_profile codec profile)
    full_matches_loop fuel profile (as_usize max_players_per_match) tickets n

  pub create_last_partial_match :
      ℕ → MatchProfile Bytes → Pool → List (Ticket Bytes) → ℕ → Outcome (Option (Match Bytes) × ℕ)
  create_last_partial_match now profile pool tickets n = do
    max_players_per_match ← unwrap (get_max_players_from_profile codec profile)
    let min_players_per_match =
        unwrap_or (get_min_players_from_profile codec profile) max_players_per_match
    let partial_match_size = min (length tickets) (as_usize max_players_per_match)
    let match_tickets = take partial_match_size tickets
    let remaining_slots = sub_i32 max_players_per_match (as_i32 (length match_tickets))
    let backfill = create_backfill_for_pool codec now pool remaining_slots
    let (created_match, n') =
        create_match_with_backfill uuid profile mmf_name match_tickets backfill true n
    if ltb (length tickets) (as_usize min_players_per_match)
        then ok (none, n)
        else ok (some created_match, n')

  pub create_matches :
      ℕ
      → ℕ
      → MatchProfile Bytes
      → Pool
      → List (Ticket Bytes)
      → List (Backfill Bytes)
      → ℕ
      → Outcome (List (Match Bytes) × ℕ)
  create_matches fuel now profile pool tickets backfills n = do
    (backfill_matches, left, n') ← fill_existing_backfills profile backfills tickets n
    (full_matches, remaining_tickets, n'') ← create_full_matches fuel profile left n'
    let last = create_last_partial_match now profile pool remaining_tickets n''
    if is_empty remaining_tickets then ok (backfill_matches ++ full_matches, n'') else (do
      (last_partial_match, n''') ← last
      ok ((backfill_matches ++ full_matches) ++ option_to_list last_partial_match, n'''))

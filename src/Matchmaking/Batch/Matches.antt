-- ===== src/Matchmaking/Batch/Matches.antt =====
-- `create_matches`, the batch function as a whole: it returns, and what its proposals are.
use shulker.Prelude.{
  ℕ, ◌<◌, ◌^◌, ◌≡◌, refl, sym, ap, ◌∙◌, subst, String, List, [], ◌++◌, Option, none, some, min,
  arith, length, is_empty, take, take_all, append_assoc, append-nil, length_of_is_empty, Bool-cases,
  ◌⊎◌, inl, inr, All,
}
use shulker.Prelude.Int32.{I32, as_usize, as_usize_pos}
use shulker.Outcome.{ok}
use shulker.OpenMatch.{Ticket, Pool, MatchProfile, Match, Backfill, Codec}
use shulker.Matchmaking.Extensions.{get_max_players_from_profile}
use shulker.Matchmaking.Batch.{Matched, create_matches, option_to_list}
use shulker.Matchmaking.Batch.Conserve.{
  players, players-append, Splits, fill_existing_backfills-Splits,
}
use shulker.Matchmaking.Batch.Sizes.{IsFull}
use shulker.Matchmaking.Batch.Full.{create_full_matches_correct}
use shulker.Matchmaking.Batch.Backfills.{
  FillsEach, total_slots, HasSlots, fill_existing_backfills_total, fill_existing_backfills_counts,
}
use shulker.Matchmaking.Batch.Partial.{
  IsPartial, PartialResult, too_few, opened, min_players, create_last_partial_match_correct,
}

-- The proposals for a pool: first the matches that fill up backfills, then full ones, then at most
-- one partial match.
pub record IsBatch {Bytes : Type 0} (codec : Codec Bytes) (now : ℕ) (pool : Pool) (least v : ℕ)
    (ts : List (Ticket Bytes)) (bs : List (Backfill Bytes)) (ms : List (Match Bytes)) : Type 0 where
  pub fills : List (Match Bytes)
  pub fulls : List (Match Bytes)
  pub last : Option (Match Bytes)
  pub unmatched : List (Ticket Bytes)
  pub shape : ms ≡ (fills ++ fulls) ++ option_to_list last
  pub conserved : players ms ++ unmatched ≡ ts
  pub backfills : FillsEach codec bs fills
  pub greedy : length (players fills) ≡ min (total_slots codec bs) (length ts)
  pub full : All (IsFull v) fulls
  pub partial : All (IsPartial codec now pool least v) (option_to_list last)
  pub waiting : (unmatched ≡ []) ⊎ ((last ≡ none) × (length unmatched < least))
  pub below_max : length unmatched < v

module _ {Bytes : Type 0} (codec : Codec Bytes) (now : ℕ) (pool : Pool) (least v : ℕ) where
  abbrev LastSplit : List (Ticket Bytes) → Option (Match Bytes) → Type 0
  LastSplit ts o =
      (rest : List (Ticket Bytes)) × (players (option_to_list o) ++ rest ≡ ts)
      × All (IsPartial codec now pool least v) (option_to_list o)
      × ((rest ≡ []) ⊎ ((o ≡ none) × (length rest < least)))
      × (length rest < v)

  last_split :
      (ts : List (Ticket Bytes)) (o : Option (Match Bytes))
      → length ts < v
      → PartialResult codec now pool least v ts o
      → LastSplit ts o
  last_split ts o short (too_few e few) = rw e (ts, refl, tt, inr (refl, few), short)
  last_split ts o short (opened m e first enough part) = rw e (
    [],
    rw (first, append-nil (take v ts ++ []), append-nil (take v ts)) (take_all v ts (omega arith)),
    (part, tt),
    inl refl,
    omega arith,
  )

  assemble :
      (ts : List (Ticket Bytes)) (bs : List (Backfill Bytes)) (x y : Matched Bytes)
      (o : Option (Match Bytes))
      → Splits ts x
      → FillsEach codec bs x.0
      → length (players x.0) ≡ min (total_slots codec bs) (length ts)
      → Splits x.1 y
      → All (IsFull v) y.0
      → LastSplit y.1 o
      → IsBatch codec now pool least v ts bs ((x.0 ++ y.0) ++ option_to_list o)
  assemble ts bs x y o sx fx gx sy fy (rest, sl, pl, wl, bl) = record {
    fills = x.0;
    fulls = y.0;
    last = o;
    unmatched = rest;
    shape = refl;
    conserved =
        rw (players-append (x.0 ++ y.0) (option_to_list o), players-append x.0 y.0)
          (append_assoc (players x.0 ++ players y.0) _ _
            ∙ ap (◌++◌ (players x.0 ++ players y.0)) sl
            ∙ append_assoc (players x.0) _ _
            ∙ ap (◌++◌ (players x.0)) sy
            ∙ sx);
    backfills = fx;
    greedy = gx;
    full = fy;
    partial = pl;
    waiting = wl;
    below_max = bl;
  }

module _ {Bytes : Type 0} (codec : Codec Bytes) (uuid : ℕ → String) where
  -- For backfills that declare their free slots, a profile whose maximum is positive, and more fuel
  -- than tickets, the function returns. Its proposals hold the first tickets in order, and the
  -- others stay unmatched. First come matches that fill up the backfills in order, for as many
  -- players as there are free slots; then matches of exactly the maximum; then at most one partial
  -- match between the minimum and the maximum, with a backfill for its free places. Tickets stay
  -- unmatched only if there are fewer than the minimum and than the maximum.
  pub create_matches_correct :
      (fuel now : ℕ) (p : MatchProfile Bytes) (pool : Pool) (ts : List (Ticket Bytes))
      (bs : List (Backfill Bytes)) (n : ℕ) (v : I32)
      → HasSlots codec bs
      → get_max_players_from_profile codec p ≡ some v
      → 0 < v
      → v < 2 ^ 31
      → length ts < fuel
      → (r : List (Match Bytes) × ℕ) × (create_matches codec uuid fuel now p pool ts bs n ≡ ok r)
        × IsBatch codec now pool (as_usize (min_players codec p v)) v ts bs r.0
  unfolding create_matches
  create_matches_correct fuel now p pool ts bs n v slots e pos small enough =
      let (x, ex) = fill_existing_backfills_total codec uuid p bs ts n slots in
      let (px, lx, fx) = fill_existing_backfills_counts codec uuid p bs ts n x ex in
      let sx = fill_existing_backfills-Splits codec uuid p bs ts n x ex in
      let (y, ey, sy, fy, shorter) =
        create_full_matches_correct codec uuid fuel p x.1 x.2 v e pos (omega (arith, lx)) in
      let whole = as_usize_pos v small in
      let least = as_usize (min_players codec p v) in
      let built = λ (o : Option (Match Bytes)).
        assemble codec now pool least v ts bs x y o sx fx px sy
          (subst (λ s. All (IsFull s) y.0) whole fy) in
      elim (Bool-cases (is_empty y.1)) [
        | inl over ↦ (
          (x.0 ++ y.0, y.2),
          rw (ex, ey, over),
          subst (IsBatch codec now pool least v ts bs) (append-nil (x.0 ++ y.0))
              (built none ([], sym (length_of_is_empty y.1 over), tt, inl refl, pos)),
        )
        | inr some_left ↦
            let (z, ez, part) =
              create_last_partial_match_correct codec uuid now p pool y.1 y.2 v e small in
            (
              ((x.0 ++ y.0) ++ option_to_list z.0, z.1),
              rw (ex, ey, some_left, ez),
              built z.0
                  (last_split codec now pool least v y.1 z.0 (omega (arith, whole, shorter)) part),
            )
      ]

-- ===== src/Matchmaking/Batch/Partial.antt =====
-- `create_last_partial_match`: the match that opens a server before it is full.
use shulker.Prelude.{
  ℕ, suc, ◌-◌, ◌≤◌, ◌<◌, ◌^◌, ◌≡◌, refl, ap, String, true, List, Option, none, some, min, arith,
  length, take, take-min, length-take, ltb, ltb→lt, ltb→le, Bool-cases, inl, inr,
}
use shulker.Prelude.Int32.{I32, as_usize, as_i32, sub_i32, sub_i32_exact, as_usize_pos}
use shulker.Outcome.{ok}
use shulker.OpenMatch.{Ticket, Pool, MatchProfile, Backfill, Match, Codec}
use shulker.Matchmaking.Extensions.{
  get_available_slots_from_backfill, get_max_players_from_profile, get_min_players_from_profile,
}
use shulker.Matchmaking.Extensions.Laws.{get-set_available_slots}
use shulker.Matchmaking.Utils.{create_match_with_backfill, create_backfill_for_pool}
use shulker.Matchmaking.Batch.{create_last_partial_match, unwrap_or, mmf_name}

-- The free slots that a new backfill for a pool declares, and the tags it is found by.
create_backfill_for_pool-slots :
    {Bytes : Type 0} (codec : Codec Bytes) (now : ℕ) (pool : Pool) (v : I32)
    → v < 2 ^ 32
    → get_available_slots_from_backfill codec (create_backfill_for_pool codec now pool v) ≡ some v
unfolding create_backfill_for_pool
create_backfill_for_pool-slots codec now pool v h = get-set_available_slots codec _ v h

-- The smallest match that the profile allows: its minimum, or its maximum where it has none.
abbrev pub min_players : {Bytes : Type 0} → Codec Bytes → MatchProfile Bytes → I32 → I32
min_players codec p v = unwrap_or (get_min_players_from_profile codec p) v

-- A match of at most `v` players that opens a server, with a backfill for the free places.
pub record IsPartial {Bytes : Type 0} (codec : Codec Bytes) (now : ℕ) (pool : Pool) (least v : ℕ)
    (m : Match Bytes) : Type 0 where
  pub enough : min least v ≤ length m.tickets
  pub fits : length m.tickets ≤ v
  pub open_places :
      m.backfill ≡ some (create_backfill_for_pool codec now pool (v - length m.tickets))
  pub declares :
      (b : Backfill Bytes) × (m.backfill ≡ some b)
      × (get_available_slots_from_backfill codec b ≡ some (v - length m.tickets))
  pub allocate : m.allocate_gameserver ≡ true

-- The match takes the first tickets, or there is none because there are too few.
pub data PartialResult {Bytes : Type 0} (codec : Codec Bytes) (now : ℕ) (pool : Pool) (least v : ℕ)
    (ts : List (Ticket Bytes)) (o : Option (Match Bytes)) : Type 0 where
  too_few : o ≡ none → length ts < least → PartialResult codec now pool least v ts o
  opened :
      (m : Match Bytes)
      → o ≡ some m
      → m.tickets ≡ take v ts
      → least ≤ length ts
      → IsPartial codec now pool least v m
      → PartialResult codec now pool least v ts o

module _ {Bytes : Type 0} (codec : Codec Bytes) (uuid : ℕ → String) where
  -- For a profile with a maximum that is not negative, the function returns: nothing where there
  -- are fewer tickets than the minimum, and else a match of the first tickets, at most the maximum,
  -- whose backfill declares exactly the free places.
  pub create_last_partial_match_correct :
      (now : ℕ) (p : MatchProfile Bytes) (pool : Pool) (ts : List (Ticket Bytes)) (n : ℕ) (v : I32)
      → get_max_players_from_profile codec p ≡ some v
      → v < 2 ^ 31
      → (r : Option (Match Bytes) × ℕ) × (create_last_partial_match codec uuid now p pool ts n
          ≡ ok r)
        × PartialResult codec now pool (as_usize (min_players codec p v)) v ts r.0
  unfolding create_last_partial_match create_match_with_backfill
  create_last_partial_match_correct now p pool ts n v e small =
      let k = min (length ts) (as_usize v) in
      let backfill =
        create_backfill_for_pool codec now pool (sub_i32 v (as_i32 (length (take k ts)))) in
      let taken = (create_match_with_backfill uuid p mmf_name (take k ts) backfill true n).0 in
      let whole = as_usize_pos v small in
      let counted : length (take k ts) ≡ min (length ts) v =
        omega (arith, whole, length-take k ts) in
      let places = sub_i32_exact v (length (take k ts)) small (omega (arith, counted)) in
      elim (Bool-cases (ltb (length ts) (as_usize (min_players codec p v)))) [
        | inl few ↦ ((none, n), rw (e, few), too_few refl (ltb→lt _ _ few))
        | inr enough ↦ (
          (some taken, suc n),
          rw (e, enough),
          opened taken refl (rw whole (take-min v ts)) (ltb→le _ _ enough) (record {
            declares = (
              backfill,
              refl,
              rw places (
                  create_backfill_for_pool-slots codec now pool (v - length (take k ts))
                    (omega arith)),
            );
            enough = omega (arith, counted, ltb→le _ _ enough);
            fits = omega (arith, counted);
            open_places = ap (λ s. some (create_backfill_for_pool codec now pool s)) places;
            allocate = refl;
          }),
        )
      ]

-- ===== src/Matchmaking/Batch/Sizes.antt =====
-- How many players the matches of the batch function hold.
use shulker.Prelude.{
  ℕ, zero, suc, ◌-◌, ◌≤◌, ◌<◌, ◌≡◌, refl, ap, subst, String, false, List, [], ◌∷◌, none, some, min,
  arith, length, is_empty, take, drop, length-take, length-append, length-drop, length_of_is_empty,
  pos_of_not_empty, Bool-cases, ◌⊎◌, inl, inr, leb, All, leb→le, leb→lt,
}
use shulker.Prelude.Int32.{I32, as_usize, as_i32, sub_i32}
use shulker.Outcome.{ok, unwrap, >>=-eq-ok, unwrap-eq-ok, ok-injective}
use shulker.OpenMatch.{Ticket, MatchProfile, Backfill, Match, Codec}
use shulker.Matchmaking.Extensions.{
  get_available_slots_from_backfill, get_max_players_from_profile, set_available_slots_in_backfill,
}
use shulker.Matchmaking.Utils.{create_full_match, create_match_with_backfill}
use shulker.Matchmaking.Batch.{
  Matched, fill_backfill, full_matches_loop, create_full_matches, unwrap_or,
}
use shulker.Matchmaking.Batch.Conserve.{players}

-- A full match has `size` players, no backfill, and gets no server of its own by this flag.
pub record IsFull {Bytes : Type 0} (size : ℕ) (m : Match Bytes) : Type 0 where
  pub players : length m.tickets ≡ size
  pub backfill : m.backfill ≡ none
  pub allocate : m.allocate_gameserver ≡ false

-- A match that fills up `b`: it has players, no more than `b` had slots, and hands back `b` with
-- that many slots less.
pub record Fills {Bytes : Type 0} (codec : Codec Bytes) (b : Backfill Bytes) (m : Match Bytes)
    : Type 0 where
  pub slots : I32
  pub had : get_available_slots_from_backfill codec b ≡ some slots
  pub some_player : 1 ≤ length m.tickets
  pub fits : length m.tickets ≤ as_usize slots
  pub given_back :
      m.backfill
      ≡ some (set_available_slots_in_backfill codec b (sub_i32 slots (as_i32 (length m.tickets))))
  pub keeps_server : m.allocate_gameserver ≡ false

-- The free slots of a backfill, 0 where it has no such extension.
abbrev pub slots_of : {Bytes : Type 0} → Codec Bytes → Backfill Bytes → I32
slots_of codec b = unwrap_or (get_available_slots_from_backfill codec b) 0

module _ {Bytes : Type 0} (codec : Codec Bytes) (uuid : ℕ → String) where
  abbrev OutcomeOf : I32 → List (Ticket Bytes) → Backfill Bytes → Matched Bytes → Type 0
  OutcomeOf v ts b r =
      (length (players r.0) ≡ min (as_usize v) (length ts))
      × (length r.1 ≡ length ts - as_usize v)
      × ((r.0 ≡ []) ⊎ ((m : Match Bytes) × (r.0 ≡ m ∷ []) × Fills codec b m))

  full_matches_loop_sizes :
      (fuel : ℕ) (p : MatchProfile Bytes) (size : ℕ) (ts : List (Ticket Bytes)) (n : ℕ)
      (r : Matched Bytes)
      → full_matches_loop codec uuid fuel p size ts n ≡ ok r
      → All (IsFull size) r.0 × (length r.1 < size)
  unfolding full_matches_loop create_full_match
  full_matches_loop_sizes zero p size ts n r h = cc
  full_matches_loop_sizes (suc fuel) p size ts n r h = elim (Bool-cases (leb size (length ts))) [
    | inl more ↦
        let h' = rw (more, full_matches_loop) at h in
        let (y, e, g) =
          >>=-eq-ok (full_matches_loop codec uuid fuel p size (drop size ts) (suc n)) _ h' in
        let (fulls, short) = full_matches_loop_sizes fuel p size (drop size ts) (suc n) y e in
        subst (λ r. All (IsFull size) r.0 × (length r.1 < size)) (ok-injective g)
          (
            (
              record {
                players = omega (arith, length-take size ts, leb→le size (length ts) more);
                backfill = refl;
                allocate = refl;
              },
              fulls,
            ),
            short,
          )
    | inr done ↦
        let h' = rw (done, full_matches_loop) at h in
        subst (λ r. All (IsFull size) r.0 × (length r.1 < size)) (ok-injective h')
          (tt, leb→lt size (length ts) done)
  ]

  pub create_full_matches_sizes :
      (fuel : ℕ) (p : MatchProfile Bytes) (ts : List (Ticket Bytes)) (n : ℕ) (r : Matched Bytes)
      (v : I32)
      → get_max_players_from_profile codec p ≡ some v
      → create_full_matches codec uuid fuel p ts n ≡ ok r
      → All (IsFull (as_usize v)) r.0 × (length r.1 < as_usize v)
  unfolding create_full_matches
  create_full_matches_sizes fuel p ts n r v e h =
      full_matches_loop_sizes fuel p (as_usize v) ts n r (rw e at h)

  pub fill_backfill_cases :
      (p : MatchProfile Bytes) (b : Backfill Bytes) (ts : List (Ticket Bytes)) (n : ℕ)
      (r : Matched Bytes)
      → fill_backfill codec uuid p b ts n ≡ ok r
      → (length (players r.0) ≡ min (as_usize (slots_of codec b)) (length ts))
        × (length r.1 ≡ length ts - as_usize (slots_of codec b))
        × ((r.0 ≡ []) ⊎ ((m : Match Bytes) × (r.0 ≡ m ∷ []) × Fills codec b m))
  unfolding fill_backfill create_match_with_backfill
  fill_backfill_cases p b ts n r h =
      let (v, e, g) = >>=-eq-ok (unwrap (get_available_slots_from_backfill codec b)) _ h in
      let had = unwrap-eq-ok (get_available_slots_from_backfill codec b) e in
      let k = min (as_usize v) (length ts) in
      let slots : slots_of codec b ≡ v = rw had in
      rw slots (elim (Bool-cases (is_empty (take k ts))) [
        | inl none_left ↦
            let g' = rw none_left at g in
            subst (OutcomeOf v ts b) (ok-injective g') (
              omega (arith, length-take k ts, ap length (length_of_is_empty (take k ts) none_left)),
              omega (arith, length-drop k ts),
              inl refl,
            )
        | inr taken ↦
            let g' = rw taken at g in
            subst (OutcomeOf v ts b) (ok-injective g') (
              omega (arith, length-take k ts, length-append (take k ts) []),
              omega (arith, length-drop k ts),
              inr (
                _,
                refl,
                record {
                  slots = v;
                  had = had;
                  some_player = pos_of_not_empty (take k ts) taken;
                  fits = omega (arith, length-take k ts);
                  given_back = refl;
                  keeps_server = refl;
                },
              ),
            )
      ])

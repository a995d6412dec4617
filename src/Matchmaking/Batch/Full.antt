-- ===== src/Matchmaking/Batch/Full.antt =====
-- `create_full_matches`: when its loop ends, and what it then returns.
use shulker.Prelude.{
  ℕ, zero, suc, ◌<◌, ◌≡◌, refl, String, List, [], ◌∷◌, some, arith, length, take, drop, length-drop,
  Bool-cases, inl, inr, leb, le→leb, leb→le, All,
}
use shulker.Prelude.Int32.{I32, as_usize}
use shulker.Outcome.{ok, running}
use shulker.OpenMatch.{Ticket, MatchProfile, Codec}
use shulker.Matchmaking.Extensions.{get_max_players_from_profile}
use shulker.Matchmaking.Utils.{create_full_match}
use shulker.Matchmaking.Batch.{Matched, mmf_name, full_matches_loop, create_full_matches}
use shulker.Matchmaking.Batch.Conserve.{Splits, create_full_matches-Splits}
use shulker.Matchmaking.Batch.Sizes.{IsFull, create_full_matches_sizes}

module _ {Bytes : Type 0} (codec : Codec Bytes) (uuid : ℕ → String) where
  full_matches_loop_total :
      (fuel : ℕ) (p : MatchProfile Bytes) (size : ℕ) (ts : List (Ticket Bytes)) (n : ℕ)
      → 0 < size
      → length ts < fuel
      → (r : Matched Bytes) × (full_matches_loop codec uuid fuel p size ts n ≡ ok r)
  unfolding full_matches_loop create_full_match
  full_matches_loop_total zero p size ts n pos enough = absurd (omega arith)
  full_matches_loop_total (suc fuel) p size ts n pos enough =
      let created = λ (ms : List (Ticket Bytes)). (create_full_match uuid p mmf_name ms n).0 in
      elim (Bool-cases (leb size (length ts))) [
        | inl more ↦
            let (y, e) =
              full_matches_loop_total fuel p size (drop size ts) (suc n) pos
                (omega (arith, length-drop size ts, leb→le size (length ts) more)) in
            ((created (take size ts) ∷ y.0, y.1, y.2), rw (more, full_matches_loop, e))
        | inr done ↦ (([], ts, n), rw (done, full_matches_loop))
      ]

  full_matches_loop_zero :
      (fuel : ℕ) (p : MatchProfile Bytes) (ts : List (Ticket Bytes)) (n : ℕ)
      → full_matches_loop codec uuid fuel p 0 ts n ≡ running
  unfolding full_matches_loop create_full_match
  full_matches_loop_zero zero p ts n = refl
  full_matches_loop_zero (suc fuel) p ts n = rw (
    le→leb 0 (length ts) (omega arith),
    full_matches_loop,
    full_matches_loop_zero fuel p ts (suc n),
  )

  -- For a profile whose maximum is not 0, with more fuel than tickets the loop ends: the matches
  -- hold the first tickets in order, each exactly the maximum of players, no backfill and no server
  -- of its own, and fewer tickets than the maximum are left.
  pub create_full_matches_correct :
      (fuel : ℕ) (p : MatchProfile Bytes) (ts : List (Ticket Bytes)) (n : ℕ) (v : I32)
      → get_max_players_from_profile codec p ≡ some v
      → 0 < v
      → length ts < fuel
      → (r : Matched Bytes) × (create_full_matches codec uuid fuel p ts n ≡ ok r)
        × Splits ts r
        × All (IsFull (as_usize v)) r.0
        × (length r.1 < as_usize v)
  unfolding create_full_matches
  create_full_matches_correct fuel p ts n v e pos enough =
      let (r, h) = full_matches_loop_total fuel p (as_usize v) ts n (ground arith) enough in
      let h' : create_full_matches codec uuid fuel p ts n ≡ ok r = rw e h in
      let (fulls, short) = create_full_matches_sizes codec uuid fuel p ts n r v e h' in
      (r, h', create_full_matches-Splits codec uuid fuel p ts n r h', fulls, short)

  -- For a profile whose maximum is 0 the loop never ends: whatever the tickets, it is still running
  -- after any number of rounds.
  pub create_full_matches_diverges :
      (fuel : ℕ) (p : MatchProfile Bytes) (ts : List (Ticket Bytes)) (n : ℕ)
      → get_max_players_from_profile codec p ≡ some 0
      → create_full_matches codec uuid fuel p ts n ≡ running
  unfolding create_full_matches
  create_full_matches_diverges fuel p ts n e = rw e (full_matches_loop_zero fuel p ts n)

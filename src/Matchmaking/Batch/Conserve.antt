-- ===== src/Matchmaking/Batch/Conserve.antt =====
-- No ticket is lost, duplicated or reordered by the batch matchmaking function.
use shulker.Prelude.{
  ℕ, zero, suc, ◌≡◌, refl, ap, sym, ◌∙◌, subst, String, List, [], ◌∷◌, ◌++◌, min, arith, length,
  take, drop, take-append-drop, length_of_is_empty, append_assoc, append-nil, Bool-cases, inl, inr,
  leb,
}
use shulker.Prelude.Int32.{as_usize}
use shulker.Outcome.{ok, unwrap, >>=-eq-ok, ok-injective}
use shulker.OpenMatch.{Ticket, MatchProfile, Backfill, Match, Codec}
use shulker.Matchmaking.Extensions.{get_available_slots_from_backfill, get_max_players_from_profile}
use shulker.Matchmaking.Utils.{create_full_match, create_match_with_backfill}
use shulker.Matchmaking.Batch.{
  Matched, fill_backfill, fill_existing_backfills, full_matches_loop, create_full_matches,
}

-- The tickets of some matches, in order.
abbrev pub players : {Bytes : Type 0} → List (Match Bytes) → List (Ticket Bytes)
players [] = []
players (m ∷ ms) = m.tickets ++ players ms

pub players-append :
    {Bytes : Type 0} (ms ns : List (Match Bytes)) → players (ms ++ ns) ≡ players ms ++ players ns
players-append [] ns = refl
players-append (m ∷ ms) ns = rw (players-append ms ns) (sym (append_assoc m.tickets _ _))

-- The made matches hold the first tickets, and the rest is left in order.
abbrev pub Splits : {Bytes : Type 0} → List (Ticket Bytes) → Matched Bytes → Type 0
Splits tickets r = players r.0 ++ r.1 ≡ tickets

Splits-then :
    {Bytes : Type 0} (ts : List (Ticket Bytes)) (x y : Matched Bytes)
    → Splits ts x
    → Splits x.1 y
    → Splits ts (x.0 ++ y.0, y.1, y.2)
Splits-then ts x y hx hy =
    rw (players-append x.0 y.0) (append_assoc (players x.0) _ _ ∙ ap (◌++◌ (players x.0)) hy ∙ hx)

module _ {Bytes : Type 0} (codec : Codec Bytes) (uuid : ℕ → String) where
  pub fill_backfill-Splits :
      (p : MatchProfile Bytes) (b : Backfill Bytes) (ts : List (Ticket Bytes)) (n : ℕ)
      (r : Matched Bytes)
      → fill_backfill codec uuid p b ts n ≡ ok r
      → Splits ts r
  unfolding fill_backfill create_match_with_backfill
  fill_backfill-Splits p b ts n r h =
      let (v, e, g) = >>=-eq-ok (unwrap (get_available_slots_from_backfill codec b)) _ h in
      let k = min (as_usize v) (length ts) in
      ground
        (arith, g, take-append-drop k ts, append-nil (take k ts), length_of_is_empty (take k ts))

  pub fill_existing_backfills-Splits :
      (p : MatchProfile Bytes) (bs : List (Backfill Bytes)) (ts : List (Ticket Bytes)) (n : ℕ)
      (r : Matched Bytes)
      → fill_existing_backfills codec uuid p bs ts n ≡ ok r
      → Splits ts r
  unfolding fill_existing_backfills
  fill_existing_backfills-Splits p [] ts n r h = ground arith
  fill_existing_backfills-Splits p (b ∷ bs) ts n r h =
      let (x, e, g) = >>=-eq-ok (fill_backfill codec uuid p b ts n) _ h in
      let (y, e', g') = >>=-eq-ok (fill_existing_backfills codec uuid p bs x.1 x.2) _ g in
      subst (Splits ts) (ok-injective g') (
        Splits-then ts x y (fill_backfill-Splits p b ts n x e)
          (fill_existing_backfills-Splits p bs x.1 x.2 y e'))

  full_matches_loop-Splits :
      (fuel : ℕ) (p : MatchProfile Bytes) (size : ℕ) (ts : List (Ticket Bytes)) (n : ℕ)
      (r : Matched Bytes)
      → full_matches_loop codec uuid fuel p size ts n ≡ ok r
      → Splits ts r
  unfolding full_matches_loop create_full_match
  full_matches_loop-Splits zero p size ts n r h = cc
  full_matches_loop-Splits (suc fuel) p size ts n r h = elim (Bool-cases (leb size (length ts))) [
    | inl more ↦
        let h' = rw (more, full_matches_loop) at h in
        let (y, e, g) =
          >>=-eq-ok (full_matches_loop codec uuid fuel p size (drop size ts) (suc n)) _ h' in
        subst (Splits ts) (ok-injective g) (
          append_assoc (take size ts) _ _
          ∙ ap (◌++◌ (take size ts))
              (full_matches_loop-Splits fuel p size (drop size ts) (suc n) y e)
          ∙ take-append-drop size ts)
    | inr done ↦ ground arith
  ]

  pub create_full_matches-Splits :
      (fuel : ℕ) (p : MatchProfile Bytes) (ts : List (Ticket Bytes)) (n : ℕ) (r : Matched Bytes)
      → create_full_matches codec uuid fuel p ts n ≡ ok r
      → Splits ts r
  unfolding create_full_matches
  create_full_matches-Splits fuel p ts n r h =
      let (v, e, g) = >>=-eq-ok (unwrap (get_max_players_from_profile codec p)) _ h in
      full_matches_loop-Splits fuel p (as_usize v) ts n r g

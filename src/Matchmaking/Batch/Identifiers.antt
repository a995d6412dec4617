-- ===== src/Matchmaking/Batch/Identifiers.antt =====
-- The identifiers of the matches of one call.
use shulker.Prelude.{
  ℕ, zero, suc, ◌≡◌, refl, sym, String, List, [], ◌∷◌, ◌++◌, Option, min, length, is_empty, take,
  drop, leb, Bool-cases, inl, inr, subst, ltb,
}
use shulker.Prelude.Int32.{as_usize}
use shulker.Outcome.{ok, >>=-eq-ok, ok-injective, unwrap}
use shulker.OpenMatch.{Ticket, Pool, MatchProfile, Match, Backfill, Codec}
use shulker.Matchmaking.Extensions.{get_available_slots_from_backfill, get_max_players_from_profile}
use shulker.Matchmaking.Utils.{create_full_match, create_match_with_backfill}
use shulker.Matchmaking.Batch.Partial.{min_players}
use shulker.Matchmaking.Batch.{
  Matched, fill_backfill, fill_existing_backfills, full_matches_loop, create_full_matches,
  create_last_partial_match, create_matches, option_to_list,
}

-- The matches carry the identifiers from position `n` up to, but not including, `n'`.
abbrev pub Numbered : {Bytes : Type 0} → (ℕ → String) → ℕ → List (Match Bytes) → ℕ → Type 0
Numbered uuid n [] n' = n ≡ n'
Numbered uuid n (m ∷ ms) n' = (m.match_id ≡ uuid n) × Numbered uuid (suc n) ms n'

pub Numbered-append :
    {Bytes : Type 0} (uuid : ℕ → String) (n n' n'' : ℕ) (ms ns : List (Match Bytes))
    → Numbered uuid n ms n'
    → Numbered uuid n' ns n''
    → Numbered uuid n (ms ++ ns) n''
Numbered-append uuid n n' n'' [] ns h k = subst (λ i. Numbered uuid i ns n'') (sym h) k
Numbered-append uuid n n' n'' (m ∷ ms) ns h k =
    (h.0, Numbered-append uuid (suc n) n' n'' ms ns h.1 k)

module _ {Bytes : Type 0} (codec : Codec Bytes) (uuid : ℕ → String) where
  fill_backfill-Numbered :
      (p : MatchProfile Bytes) (b : Backfill Bytes) (ts : List (Ticket Bytes)) (n : ℕ)
      (r : Matched Bytes)
      → fill_backfill codec uuid p b ts n ≡ ok r
      → Numbered uuid n r.0 r.2
  unfolding fill_backfill create_match_with_backfill
  fill_backfill-Numbered p b ts n r h =
      let (v, e, g) = >>=-eq-ok (unwrap (get_available_slots_from_backfill codec b)) _ h in
      elim (Bool-cases (is_empty (take (min (as_usize v) (length ts)) ts))) [
        | inl none_left ↦
            subst (λ (r : Matched Bytes). Numbered uuid n r.0 r.2)
              (ok-injective (rw none_left at g)) refl
        | inr taken ↦
            subst (λ (r : Matched Bytes). Numbered uuid n r.0 r.2) (ok-injective (rw taken at g))
              (refl, refl)
      ]

  fill_existing_backfills-Numbered :
      (p : MatchProfile Bytes) (bs : List (Backfill Bytes)) (ts : List (Ticket Bytes)) (n : ℕ)
      (r : Matched Bytes)
      → fill_existing_backfills codec uuid p bs ts n ≡ ok r
      → Numbered uuid n r.0 r.2
  unfolding fill_existing_backfills
  fill_existing_backfills-Numbered p [] ts n r h =
      subst (λ (r : Matched Bytes). Numbered uuid n r.0 r.2) (ok-injective h) refl
  fill_existing_backfills-Numbered p (b ∷ bs) ts n r h =
      let (x, e, g) = >>=-eq-ok (fill_backfill codec uuid p b ts n) _ h in
      let (y, e', g') = >>=-eq-ok (fill_existing_backfills codec uuid p bs x.1 x.2) _ g in
      subst (λ (r : Matched Bytes). Numbered uuid n r.0 r.2) (ok-injective g')
        (Numbered-append uuid n x.2 y.2 x.0 y.0 (fill_backfill-Numbered p b ts n x e)
          (fill_existing_backfills-Numbered p bs x.1 x.2 y e'))

  full_matches_loop-Numbered :
      (fuel : ℕ) (p : MatchProfile Bytes) (size : ℕ) (ts : List (Ticket Bytes)) (n : ℕ)
      (r : Matched Bytes)
      → full_matches_loop codec uuid fuel p size ts n ≡ ok r
      → Numbered uuid n r.0 r.2
  unfolding full_matches_loop create_full_match
  full_matches_loop-Numbered zero p size ts n r h = cc
  full_matches_loop-Numbered (suc fuel) p size ts n r h = elim (Bool-cases (leb size (length ts))) [
    | inl more ↦
        let h' = rw (more, full_matches_loop) at h in
        let (y, e, g) =
          >>=-eq-ok (full_matches_loop codec uuid fuel p size (drop size ts) (suc n)) _ h' in
        subst (λ (r : Matched Bytes). Numbered uuid n r.0 r.2) (ok-injective g)
          (refl, full_matches_loop-Numbered fuel p size (drop size ts) (suc n) y e)
    | inr done ↦
        let h' = rw (done, full_matches_loop) at h in
        subst (λ (r : Matched Bytes). Numbered uuid n r.0 r.2) (ok-injective h') refl
  ]

  create_last_partial_match-Numbered :
      (now : ℕ) (p : MatchProfile Bytes) (pool : Pool) (ts : List (Ticket Bytes)) (n : ℕ)
      (r : Option (Match Bytes) × ℕ)
      → create_last_partial_match codec uuid now p pool ts n ≡ ok r
      → Numbered uuid n (option_to_list r.0) r.1
  unfolding create_last_partial_match create_match_with_backfill
  create_last_partial_match-Numbered now p pool ts n r h =
      let (v, e, g) = >>=-eq-ok (unwrap (get_max_players_from_profile codec p)) _ h in
      elim (Bool-cases (ltb (length ts) (as_usize (min_players codec p v)))) [
        | inl few ↦
            subst (λ (r : Option (Match Bytes) × ℕ). Numbered uuid n (option_to_list r.0) r.1)
              (ok-injective (rw few at g)) refl
        | inr enough ↦
            subst (λ (r : Option (Match Bytes) × ℕ). Numbered uuid n (option_to_list r.0) r.1)
              (ok-injective (rw enough at g)) (refl, refl)
      ]

  -- The matches of one call carry consecutive identifiers of the supply, from the position the call
  -- started at up to the one it returns, so no identifier is used twice or skipped.
  create_matches-Numbered :
      (fuel now : ℕ) (p : MatchProfile Bytes) (pool : Pool) (ts : List (Ticket Bytes))
      (bs : List (Backfill Bytes)) (n : ℕ) (r : List (Match Bytes) × ℕ)
      → create_matches codec uuid fuel now p pool ts bs n ≡ ok r
      → Numbered uuid n r.0 r.1
  unfolding create_matches create_full_matches
  create_matches-Numbered fuel now p pool ts bs n r h =
      let (x, ex, gx) = >>=-eq-ok (fill_existing_backfills codec uuid p bs ts n) _ h in
      let (y, ey, gy) = >>=-eq-ok (create_full_matches codec uuid fuel p x.1 x.2) _ gx in
      let (v, ev, gv) = >>=-eq-ok (unwrap (get_max_players_from_profile codec p)) _ ey in
      let both =
        Numbered-append uuid n x.2 y.2 x.0 y.0 (fill_existing_backfills-Numbered p bs ts n x ex)
          (full_matches_loop-Numbered fuel p (as_usize v) x.1 x.2 y gv) in
      elim (Bool-cases (is_empty y.1)) [
        | inl over ↦
            subst (λ (r : List (Match Bytes) × ℕ). Numbered uuid n r.0 r.1)
              (ok-injective (rw over at gy)) both
        | inr some_left ↦
            let (z, ez, gz) =
              >>=-eq-ok (create_last_partial_match codec uuid now p pool y.1 y.2) _
                (rw some_left at gy) in
            subst (λ (r : List (Match Bytes) × ℕ). Numbered uuid n r.0 r.1) (ok-injective gz)
              (Numbered-append uuid n y.2 z.1 (x.0 ++ y.0) (option_to_list z.0) both
                (create_last_partial_match-Numbered now p pool y.1 y.2 z ez))
      ]

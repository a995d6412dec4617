-- ===== src/Matchmaking/Batch/Backfills.antt =====
-- `fill_existing_backfills` as a whole: which backfills are filled, and by how many players.
use shulker.Prelude.{
  ℕ, ◌+◌, ◌-◌, ◌<◌, ◌^◌, ◌≡◌, refl, suc, append-nil, ◌∙◌, ap, subst, String, List, [], ◌∷◌, ◌++◌,
  some, min, arith, length, length-append, ◌⊎◌, inl, inr, All,
}
use shulker.Prelude.Int32.{I32, as_usize, as_usize_pos, sub_i32_exact}
use shulker.Outcome.{ok, >>=-eq-ok, ok-injective, if-ok_total}
use shulker.OpenMatch.{Ticket, MatchProfile, Backfill, Match, Codec}
use shulker.Matchmaking.Extensions.{
  get_available_slots_from_backfill, get_game_server_id_from_backfill,
  set_available_slots_in_backfill,
}
use shulker.Matchmaking.Extensions.Laws.{get-set_available_slots, backfill_extensions_independent}
use shulker.Matchmaking.Batch.{Matched, fill_backfill, fill_existing_backfills}
use shulker.Matchmaking.Batch.Conserve.{players, players-append, fill_backfill-Splits}
use shulker.Matchmaking.Batch.Sizes.{Fills, slots_of, fill_backfill_cases}

-- The free slots of all backfills together.
abbrev pub total_slots : {Bytes : Type 0} → Codec Bytes → List (Backfill Bytes) → ℕ
total_slots codec [] = 0
total_slots codec (b ∷ bs) = as_usize (slots_of codec b) + total_slots codec bs

-- The matches go through the backfills in order: each backfill is passed over or filled by one.
pub data FillsEach {Bytes : Type 0} (codec : Codec Bytes)
    : List (Backfill Bytes) → List (Match Bytes) → Type 0 where
  done : FillsEach codec [] []
  skip :
      {b : Backfill Bytes} {bs : List (Backfill Bytes)} {ms : List (Match Bytes)}
      → FillsEach codec bs ms
      → FillsEach codec (b ∷ bs) ms
  fill :
      {b : Backfill Bytes} {bs : List (Backfill Bytes)} {m : Match Bytes} {ms : List (Match Bytes)}
      → Fills codec b m
      → FillsEach codec bs ms
      → FillsEach codec (b ∷ bs) (m ∷ ms)

-- Every backfill has the slots extension that `unwrap` asks for.
abbrev pub HasSlots : {Bytes : Type 0} → Codec Bytes → List (Backfill Bytes) → Type 0
HasSlots codec = All (λ b. (v : ℕ) × (get_available_slots_from_backfill codec b ≡ some v))

module _ {Bytes : Type 0} (codec : Codec Bytes) (uuid : ℕ → String) where
  fill_one :
      (b : Backfill Bytes) (bs : List (Backfill Bytes)) (made ms : List (Match Bytes))
      → ((made ≡ []) ⊎ ((m : Match Bytes) × (made ≡ m ∷ []) × Fills codec b m))
      → FillsEach codec bs ms
      → FillsEach codec (b ∷ bs) (made ++ ms)
  fill_one b bs made ms (inl e) rest = rw e (skip rest)
  fill_one b bs made ms (inr (m, e, f)) rest = rw e (fill f rest)

  -- When filling the backfills returns, it has matched as many players as there are free slots or
  -- tickets, whichever is less; each match fills up one backfill, in order, with at least one
  -- player and no more than it had free slots, and hands it back with the difference, in 32 bits.
  pub fill_existing_backfills_counts :
      (p : MatchProfile Bytes) (bs : List (Backfill Bytes)) (ts : List (Ticket Bytes)) (n : ℕ)
      (r : Matched Bytes)
      → fill_existing_backfills codec uuid p bs ts n ≡ ok r
      → (length (players r.0) ≡ min (total_slots codec bs) (length ts))
        × (length r.1 ≡ length ts - total_slots codec bs)
        × FillsEach codec bs r.0
  unfolding fill_existing_backfills
  fill_existing_backfills_counts p [] ts n r h =
      subst
        (λ (r : Matched Bytes).
          (length (players r.0) ≡ min 0 (length ts))
          × (length r.1 ≡ length ts - 0)
          × FillsEach codec [] r.0)
        (ok-injective h) (omega arith, omega arith, done)
  fill_existing_backfills_counts p (b ∷ bs) ts n r h =
      let (x, e, g) = >>=-eq-ok (fill_backfill codec uuid p b ts n) _ h in
      let (y, e', g') = >>=-eq-ok (fill_existing_backfills codec uuid p bs x.1 x.2) _ g in
      let (px, lx, fx) = fill_backfill_cases codec uuid p b ts n x e in
      let (py, ly, fy) = fill_existing_backfills_counts p bs x.1 x.2 y e' in
      subst
        (λ (r : Matched Bytes).
          (length (players r.0) ≡ min (total_slots codec (b ∷ bs)) (length ts))
          × (length r.1 ≡ length ts - total_slots codec (b ∷ bs))
          × FillsEach codec (b ∷ bs) r.0)
        (ok-injective g')
        (
          omega (
            arith,
            px,
            py,
            lx,
            ap length (players-append x.0 y.0),
            length-append (players x.0) (players y.0),
          ),
          omega (arith, lx, ly),
          fill_one b bs x.0 y.0 fx fy,
        )

  fill_backfill_total :
      (p : MatchProfile Bytes) (b : Backfill Bytes) (ts : List (Ticket Bytes)) (n v : ℕ)
      → get_available_slots_from_backfill codec b ≡ some v
      → (r : Matched Bytes) × (fill_backfill codec uuid p b ts n ≡ ok r)
  unfolding fill_backfill
  fill_backfill_total p b ts n v e = rw (e, fill_backfill) (if-ok_total _ _ _)

  pub fill_existing_backfills_total :
      (p : MatchProfile Bytes) (bs : List (Backfill Bytes)) (ts : List (Ticket Bytes)) (n : ℕ)
      → HasSlots codec bs
      → (r : Matched Bytes) × (fill_existing_backfills codec uuid p bs ts n ≡ ok r)
  unfolding fill_existing_backfills
  fill_existing_backfills_total p [] ts n h = (_, refl)
  fill_existing_backfills_total p (b ∷ bs) ts n ((v, e), h) =
      let (x, ex) = fill_backfill_total p b ts n v e in
      let (y, ey) = fill_existing_backfills_total p bs x.1 x.2 h in
      ((x.0 ++ y.0, y.1, y.2), rw (ex, ey))

  -- A backfill with free slots is filled up by one match of the first tickets.
  pub fill_backfill_match :
      (p : MatchProfile Bytes) (b : Backfill Bytes) (t : Ticket Bytes) (ts : List (Ticket Bytes))
      (n : ℕ) (v : I32)
      → get_available_slots_from_backfill codec b ≡ some v
      → 0 < v
      → v < 2 ^ 31
      → (m : Match Bytes) × (left : List (Ticket Bytes)) × (n' : ℕ) × (fill_backfill codec uuid p b
            (t ∷ ts)
            n
          ≡ ok (m ∷ [], left, n'))
        × (m.tickets ++ left ≡ t ∷ ts)
        × (length m.tickets ≡ min v (suc (length ts)))
        × Fills codec b m
  fill_backfill_match p b t ts n v has some_slot small =
      let ((ms, left, n'), filled) = fill_backfill_total p b (t ∷ ts) n v has in
      let (many, few, made) = fill_backfill_cases codec uuid p b (t ∷ ts) n (ms, left, n') filled in
      let counted : length (players ms) ≡ min v (suc (length ts)) =
        rw (has, as_usize_pos v small) at many in
      let split : players ms ++ left ≡ t ∷ ts =
        fill_backfill-Splits codec uuid p b (t ∷ ts) n (ms, left, n') filled in
      elim made [
        | inl nothing ↦
            let none_made : 0 ≡ min v (suc (length ts)) = rw nothing at counted in
            absurd (omega (arith, none_made, some_slot))
        | inr (m, one, fills) ↦ (
          m,
          left,
          n',
          filled ∙ ap (λ made. ok (made, left, n')) one,
          rw (append-nil m.tickets) at (rw one at split),
          rw (append-nil m.tickets) at (rw one at counted),
          fills,
        )
      ]

module _ {Bytes : Type 0} (codec : Codec Bytes) where
  -- Where a backfill had a nonnegative number of free slots, the match that fills it up hands back
  -- a backfill with exactly the slots that are left, on the same game server.
  pub Fills-slots :
      (b : Backfill Bytes) (m : Match Bytes) (v : I32)
      → Fills codec b m
      → get_available_slots_from_backfill codec b ≡ some v
      → v < 2 ^ 31
      → (b' : Backfill Bytes) × (m.backfill ≡ some b')
        × (get_available_slots_from_backfill codec b' ≡ some (v - length m.tickets))
        × (get_game_server_id_from_backfill codec b' ≡ get_game_server_id_from_backfill codec b)
  Fills-slots b m v f e small =
      let same : f.slots ≡ v = cc (f.had) in
      let fits = rw (same, as_usize_pos v small) at f.fits in
      let left = sub_i32_exact v (length m.tickets) small fits in
      (
        set_available_slots_in_backfill codec b (v - length m.tickets),
        rw (f.given_back, same, left),
        get-set_available_slots codec b (v - length m.tickets) (omega arith),
        (backfill_extensions_independent codec b (v - length m.tickets) "" (omega arith)).1,
      )

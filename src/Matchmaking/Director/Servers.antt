-- ===== src/Matchmaking/Director/Servers.antt =====
-- Which server the director gives to each kind of match that the batch function proposes, and what
-- a failing queue does to the others.
use shulker.Prelude.{
  ℕ, suc, ◌<◌, ◌^◌, min, length, map, ◌≡◌, refl, ap, String, true, List, [], ◌∷◌, ◌++◌, some, ◌∙◌,
  ◌⊎◌, inl, inr,
}
use shulker.Prelude.Dict.{Dict}
use shulker.Outcome.{Outcome, panicked, running}
use shulker.Result.{Result, ok, err, map_err}
use shulker.OpenMatch.{Ticket, Match, Backfill, Codec, Pool}
use shulker.Prelude.Int32.{I32}
use shulker.Matchmaking.Extensions.{
  get_available_slots_from_backfill, get_game_server_id_from_backfill,
}
use shulker.Matchmaking.Queues.{PreparedQueue}
use shulker.Matchmaking.Batch.Sizes.{IsFull, Fills}
use shulker.Matchmaking.Batch.Backfills.{Fills-slots, fill_backfill_match}
use shulker.Matchmaking.Batch.{fill_backfill}
use shulker.Matchmaking.Batch.Partial.{IsPartial}
use shulker.Matchmaking.Director.{
  Status, Call, allocate_from_fleet, assign_tickets, Services, Effect, DirectorError, rpc,
  needs_server, allocation_request, assignments, and_next, assign_match, try_allocate_match,
  try_fetch_matches_for_queue, fetch_each,
}

module _ {Bytes : Type 0} (codec : Codec Bytes) (services : Services Bytes) where
  joined :
      (queue : PreparedQueue Bytes) (b : Backfill Bytes) (m : Match Bytes) (v : I32)
      (server : String) (calls : List (Call Bytes))
      → Fills codec b m
      → get_available_slots_from_backfill codec b ≡ some v
      → v < 2 ^ 31
      → get_game_server_id_from_backfill codec b ≡ some server
      → try_allocate_match codec services queue m calls ≡ (
        Outcome.ok (map_err rpc (services.assign calls (assignments m server))),
        assign_tickets (assignments m server) ∷ calls,
      )
  unfolding try_allocate_match needs_server
  joined queue b m v server calls f e small there =
      let (b', back, slots, same) = Fills-slots codec b m v f e small in
      let found = same ∙ there in simp (f.keeps_server, back) (rw (found, assign_match))

  -- The tickets of a match, assigned to a server.
  abbrev pub sent_to : String → Match Bytes → Call Bytes
  sent_to server m = assign_tickets (
      record {
        ticket_ids = map (λ (t : Ticket Bytes). t.id) m.tickets;
        assignment = some (record { connection = server; extensions = [] });
      }
      ∷ [])

  -- A backfill of a running game server that has free slots is filled up, when there are tickets, by
  -- one match of the first of them, as many as there are slots, and the director then makes one
  -- call for this match, which assigns these tickets to that server: no server is allocated.
  pub fill_joins_running_server :
      (uuid : ℕ → String) (queue : PreparedQueue Bytes) (b : Backfill Bytes) (t : Ticket Bytes)
      (ts : List (Ticket Bytes)) (n : ℕ) (v : I32) (server : String) (calls : List (Call Bytes))
      → get_available_slots_from_backfill codec b ≡ some v
      → 0 < v
      → v < 2 ^ 31
      → get_game_server_id_from_backfill codec b ≡ some server
      → (m : Match Bytes) × (left : List (Ticket Bytes)) × (n' : ℕ) × (fill_backfill codec uuid
            queue.match_profile b
            (t ∷ ts)
            n
          ≡ Outcome.ok (m ∷ [], left, n'))
        × (m.tickets ++ left ≡ t ∷ ts)
        × (length m.tickets ≡ min v (suc (length ts)))
        × ((try_allocate_match codec services queue m calls).1 ≡ sent_to server m ∷ calls)
  unfolding assignments
  fill_joins_running_server uuid queue b t ts n v server calls has some_slot small there =
      let (m, left, n', filled, split, counted, fills) =
        fill_backfill_match codec uuid queue.match_profile b t ts n v has some_slot small in
      let joins = joined queue b m v server calls fills has small there in
      (m, left, n', filled, split, counted, ap (λ (e : Effect Bytes). e.1) joins)

  -- What the director does with a match that needs a server: it asks for one from the queue's fleet,
  -- to be summoned if none is free, and assigns the tickets only if it was granted one.
  abbrev pub OpensServer : PreparedQueue Bytes → Match Bytes → List (Call Bytes) → Type 0
  OpensServer queue m calls =
      let asked = allocate_from_fleet (allocation_request queue m) ∷ calls in
      ((s : Status) × (services.allocate calls (allocation_request queue m) ≡ err s)
        × (try_allocate_match codec services queue m calls ≡ (Outcome.ok (err (rpc s)), asked)))
      ⊎ ((server : String) × (services.allocate calls (allocation_request queue m) ≡ ok server)
          × (try_allocate_match codec services queue m calls ≡ (
            Outcome.ok (map_err rpc (services.assign asked (assignments m server))),
            assign_tickets (assignments m server) ∷ asked,
          )))

  opens_server :
      (queue : PreparedQueue Bytes) (m : Match Bytes) (calls : List (Call Bytes))
      → needs_server m ≡ true
      → OpensServer queue m calls
  unfolding try_allocate_match
  opens_server queue m calls needs = go (services.allocate calls (allocation_request queue m)) refl
    where
      go :
          (reply : Result Status String)
          → services.allocate calls (allocation_request queue m) ≡ reply
          → OpensServer queue m calls
      go (ok server) e = inr (server, e, rw (needs, try_allocate_match, e, assign_match))
      go (err s) e = inl (s, e, rw (needs, try_allocate_match, e, assign_match))

  -- A full match, which has no backfill, and a partial match, which has a new one, both ask for a
  -- server of their own, whatever the profile's size.
  full_and_partial_open_server :
      (queue : PreparedQueue Bytes) (now : ℕ) (pool : Pool) (least v : ℕ) (m : Match Bytes)
      (calls : List (Call Bytes))
      → IsFull v m ⊎ IsPartial codec now pool least v m
      → OpensServer queue m calls
  full_and_partial_open_server queue now pool least v m calls (inl full) =
      opens_server queue m calls (unfold needs_server in simp (full.allocate, full.backfill))
  full_and_partial_open_server queue now pool least v m calls (inr part) =
      opens_server queue m calls (unfold needs_server in simp part.allocate)

  -- A round that succeeds serves every queue in turn, each from the history that the ones before it
  -- left.
  fetch_each-append :
      (queues later : Dict (PreparedQueue Bytes)) (calls calls' : List (Call Bytes))
      → fetch_each codec services queues calls ≡ (Outcome.ok (ok tt), calls')
      → fetch_each codec services (queues ++ later) calls ≡ fetch_each codec services later calls'
  unfolding fetch_each
  fetch_each-append [] later calls calls' h =
      ap (λ (r : Effect Bytes). fetch_each codec services later r.1) h
  fetch_each-append ((name, queue) ∷ queues) later calls calls' h =
      go (try_fetch_matches_for_queue codec services queue calls) (fetch_each-append queues later) h
    where
      go :
          (r : Effect Bytes)
          → ((c c' : List (Call Bytes))
              → fetch_each codec services queues c ≡ (Outcome.ok (ok tt), c')
              → fetch_each codec services (queues ++ later) c ≡ fetch_each codec services later c')
          → and_next r (fetch_each codec services queues) ≡ (Outcome.ok (ok tt), calls')
          → and_next r (fetch_each codec services (queues ++ later))
            ≡ fetch_each codec services later calls'
      go (Outcome.ok (ok done), c) ih k = ih c calls' k
      go (Outcome.ok (err e), c) ih k = cc (ap (λ (r : Effect Bytes). r.0) k)
      go (panicked, c) ih k = cc (ap (λ (r : Effect Bytes). r.0) k)
      go (running, c) ih k = cc (ap (λ (r : Effect Bytes). r.0) k)

  -- A queue that fails ends the round: after the queues before it were served, the result is its
  -- error, and the queues after it are not served, whatever they are.
  failed_queue_ends_round :
      (earlier later : Dict (PreparedQueue Bytes)) (name : String) (queue : PreparedQueue Bytes)
      (calls served failed : List (Call Bytes)) (e : DirectorError)
      → fetch_each codec services earlier calls ≡ (Outcome.ok (ok tt), served)
      → try_fetch_matches_for_queue codec services queue served ≡ (Outcome.ok (err e), failed)
      → fetch_each codec services (earlier ++ (name, queue) ∷ later) calls
        ≡ (Outcome.ok (err e), failed)
  failed_queue_ends_round earlier later name queue calls served failed e before h =
      fetch_each-append earlier ((name, queue) ∷ later) calls served before
      ∙ unfold fetch_each in rw h

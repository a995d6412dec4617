-- ===== src/Matchmaking/Queues/Laws.antt =====
-- What registering and unregistering a queue does to the queues that the director serves.
use shulker.Prelude.{
  ℕ, ◌≡◌, refl, ap, ◌∙◌, [], String, List, Option, none, some, arith, ◌==◌, eq_iff, if◌then◌else◌,
  Option-cases, inl, inr,
}
use shulker.Prelude.Dict.{get, insert, dict_laws, get-insert, get-remove}
use shulker.Prelude.Int32.{as_i32}
use mathlib.Core.Option
use shulker.Outcome.{Outcome}
use shulker.Result.{Result}
use shulker.OpenMatch.{FunctionConfig, MatchProfile, Pool, Codec}
use shulker.Matchmaking.Extensions.{get_min_players_from_profile, get_max_players_from_profile}
use shulker.Matchmaking.Extensions.Laws.{get-set_max_players, get-set_min_players, get_min-set_max}
use shulker.Matchmaking.Registry.{MmfRegistry}
use shulker.Matchmaking.Queues.{
  MatchmakingQueue, PreparedQueue, QueueRegistry, RegistryError, create_mmf_config,
  create_match_profile, from, update, register_queue, register_at, unregister_queue,
  set_min_if_given,
}

-- Unregistering removes the entry of the queue's name and no other.
pub get-unregister_queue :
    {Bytes : Type 0} (registry : QueueRegistry Bytes) (q : MatchmakingQueue) (j : String)
    → get j (unregister_queue registry q).queues
      ≡ (if q.name_any == j then none else get j registry.queues)
unfolding unregister_queue
get-unregister_queue registry q j = get-remove q.name_any j registry.queues

module _ {Bytes : Type 0} (codec : Codec Bytes) where
  -- What is prepared for a valid queue: an entry that is there keeps its namespace.
  abbrev pub prepared_for :
      Option (PreparedQueue Bytes)
      → String
      → MatchmakingQueue
      → FunctionConfig
      → PreparedQueue Bytes
  prepared_for none ns q c = record {
    namespace = ns;
    fleet_ref = q.spec.target_fleet_ref;
    mmf_config = c;
    match_profile = create_match_profile codec q;
  }
  prepared_for (some p) ns q c = record {
    namespace = p.namespace;
    fleet_ref = q.spec.target_fleet_ref;
    mmf_config = c;
    match_profile = create_match_profile codec q;
  }

  update_valid :
      (p : PreparedQueue Bytes) (r : MmfRegistry) (q : MatchmakingQueue) (ns : String)
      (c : FunctionConfig)
      → create_mmf_config r q ≡ Result.ok c
      → update codec p r q ≡ (prepared_for (some p) ns q c, Result.ok tt)
  unfolding update
  update_valid p r q ns c v = rw (v, update)

  update_invalid :
      (p : PreparedQueue Bytes) (r : MmfRegistry) (q : MatchmakingQueue) (e : RegistryError)
      → create_mmf_config r q ≡ Result.err e
      → update codec p r q ≡ (record p { fleet_ref = q.spec.target_fleet_ref }, Result.err e)
  unfolding update
  update_invalid p r q e v = rw (v, update)

  -- Registering a valid queue succeeds. It sets the entry of the queue's name to the queue's fleet,
  -- function and profile, under the namespace that an earlier entry of this name had and else under
  -- its own; and it leaves the entry of every other name, and the functions, as they were.
  pub register_queue_valid :
      (registry : QueueRegistry Bytes) (q : MatchmakingQueue) (ns : String) (c : FunctionConfig)
      (j : String)
      → q.namespace ≡ some ns
      → create_mmf_config registry.mmf_registry q ≡ Result.ok c
      → (r : QueueRegistry Bytes × Result RegistryError (Unit {0})) × (register_queue codec registry
            q
          ≡ Outcome.ok r)
        × (r.1 ≡ Result.ok tt)
        × (r.0.mmf_registry ≡ registry.mmf_registry)
        × (get j r.0.queues ≡ (
            if q.name_any == j
            then some (prepared_for (get q.name_any registry.queues) ns q c)
            else get j registry.queues))
  unfolding register_queue from
  register_queue_valid registry q ns c j e v =
      elim (Option-cases (get q.name_any registry.queues)) [
        | inl absent ↦ (
          (
            record registry {
              queues = insert q.name_any (prepared_for none ns q c) registry.queues;
            },
            Result.ok tt,
          ),
          rw (absent, register_queue, v, e),
          refl,
          refl,
          rw absent (get-insert q.name_any j (prepared_for none ns q c) registry.queues),
        )
        | inr (p, present) ↦ (
          (
            record registry {
              queues = insert q.name_any (prepared_for (some p) ns q c) registry.queues;
            },
            Result.ok tt,
          ),
          rw (present, register_queue, register_at, update_valid p registry.mmf_registry q ns c v),
          refl,
          refl,
          rw present (get-insert q.name_any j (prepared_for (some p) ns q c) registry.queues),
        )
      ]

  abbrev pub moved_to :
      Option (PreparedQueue Bytes) → MatchmakingQueue → Option (PreparedQueue Bytes)
  moved_to none q = none
  moved_to (some p) q = some (record p { fleet_ref = q.spec.target_fleet_ref })

  -- Registering a queue with no valid function reports the error and adds no entry; but an entry of
  -- its name that was there already points to the fleet of the refused queue, with the function and
  -- the profile of before. Every other entry stays.
  pub register_queue_invalid :
      (registry : QueueRegistry Bytes) (q : MatchmakingQueue) (ns : String) (e : RegistryError)
      (j : String)
      → q.namespace ≡ some ns
      → create_mmf_config registry.mmf_registry q ≡ Result.err e
      → (r : QueueRegistry Bytes × Result RegistryError (Unit {0})) × (register_queue codec registry
            q
          ≡ Outcome.ok r)
        × (r.1 ≡ Result.err e)
        × (get j r.0.queues ≡ (
            if q.name_any == j
            then moved_to (get q.name_any registry.queues) q
            else get j registry.queues))
  unfolding register_queue from
  register_queue_invalid registry q ns e j n v =
      elim (Option-cases (get q.name_any registry.queues)) [
        | inl absent ↦ (
          (registry, Result.err e),
          rw (absent, register_queue, v, n),
          refl,
          rw absent (ground (arith, eq_iff q.name_any j)),
        )
        | inr (p, present) ↦
            let moved = record p { fleet_ref = q.spec.target_fleet_ref } in
            (
              (record registry { queues = insert q.name_any moved registry.queues }, Result.err e),
              rw (
                present,
                register_queue,
                register_at,
                update_invalid p registry.mmf_registry q e v,
              ),
              refl,
              rw present (get-insert q.name_any j moved registry.queues),
            )
      ]

  -- Two valid queues of one name in two namespaces share one entry: after the second is registered
  -- it has the fleet of the second in the namespace of the first.
  pub register_queue_collision :
      (registry : QueueRegistry Bytes) (q r : MatchmakingQueue) (ns ns' : String)
      (c d : FunctionConfig)
      → get q.name_any registry.queues ≡ none
      → r.name_any ≡ q.name_any
      → q.namespace ≡ some ns
      → r.namespace ≡ some ns'
      → create_mmf_config registry.mmf_registry q ≡ Result.ok c
      → create_mmf_config registry.mmf_registry r ≡ Result.ok d
      → (s t : QueueRegistry Bytes) × (register_queue codec registry q
          ≡ Outcome.ok (s, Result.ok tt))
        × (register_queue codec s r ≡ Outcome.ok (t, Result.ok tt))
        × (get q.name_any t.queues
            ≡ some (record {
              namespace = ns;
              fleet_ref = r.spec.target_fleet_ref;
              mmf_config = d;
              match_profile = create_match_profile codec r;
            }))
  register_queue_collision registry q r ns ns' c d fresh same n n' v v' =
      let (x, ex, okx, regx, getx) = register_queue_valid registry q ns c q.name_any n v in
      let (y, ey, oky, regy, gety) = register_queue_valid x.0 r ns' d q.name_any n' (rw regx v') in
      (
        x.0,
        y.0,
        ex ∙ ap (λ res. Outcome.ok (x.0, res)) okx,
        ey ∙ ap (λ res. Outcome.ok (y.0, res)) oky,
        ground (
          arith,
          gety,
          getx,
          fresh,
          same,
          eq_iff q.name_any q.name_any,
          eq_iff r.name_any q.name_any,
        ),
      )

  min_if_given :
      (o : Option ℕ) (p : MatchProfile Bytes)
      → get_min_players_from_profile codec p ≡ none
      → get_min_players_from_profile codec (set_min_if_given codec o p) ≡ Option.map as_i32 o
  unfolding set_min_if_given
  min_if_given none p h = h
  min_if_given (some lo) p h = get-set_min_players codec p (as_i32 lo) (omega arith)

  no_min :
      (name : String) (pools : List Pool)
      → get_min_players_from_profile codec (record { name = name; pools = pools; extensions = [] })
        ≡ none
  unfolding get_min_players_from_profile
  no_min name pools = simp dict_laws

  -- The profile of a queue carries its limits, in 32 bits: the maximum, and the minimum if given.
  pub create_match_profile_limits :
      (q : MatchmakingQueue)
      → (get_max_players_from_profile codec (create_match_profile codec q)
          ≡ some (as_i32 q.spec.max_players))
        × (get_min_players_from_profile codec (create_match_profile codec q)
            ≡ Option.map as_i32 q.spec.min_players)
  unfolding create_match_profile
  create_match_profile_limits q = (
    get-set_max_players codec _ (as_i32 q.spec.max_players) (omega arith),
    get_min-set_max codec _ (as_i32 q.spec.max_players)
        ∙ min_if_given q.spec.min_players _ (no_min _ _),
  )

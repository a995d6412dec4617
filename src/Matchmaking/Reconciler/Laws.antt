-- ===== src/Matchmaking/Reconciler/Laws.antt =====
-- What a reconciliation leaves in the registry.
use shulker.Prelude.{
  eq_iff, ap, ◌∙◌, ◌≡◌, refl, String, Option, none, some, ◌==◌, if◌then◌else◌, eq_refl, inl, inr,
  Bool-cases,
}
use shulker.Prelude.Dict.{Dict, get}
use shulker.Outcome.{ok}
use shulker.Result.{Result}
use shulker.OpenMatch.{FunctionConfig, Codec, Timestamp}
use shulker.Matchmaking.Queues.{
  MatchmakingQueue, QueueRegistry, PreparedQueue, RegistryError, create_mmf_config, register_queue,
  unregister_queue,
}
use shulker.Matchmaking.Queues.Laws.{prepared_for, register_queue_valid, get-unregister_queue}
use shulker.Matchmaking.Reconciler.{requeue, await_change, cleanup, reconcile}

module _ {Bytes : Type 0} (codec : Codec Bytes) where
  reconcile_live :
      (registry : QueueRegistry Bytes) (q : MatchmakingQueue) (ns : String) (c : FunctionConfig)
      (r : QueueRegistry Bytes × Result RegistryError (Unit {0}))
      → q.namespace ≡ some ns
      → q.deletion_timestamp ≡ none
      → register_queue codec registry q ≡ ok r
      → r.1 ≡ Result.ok tt
      → reconcile codec registry q ≡ ok (r.0, Result.ok (requeue 300))
  unfolding reconcile
  reconcile_live registry q ns c (after, result) e live registers done =
      rw (e, live, registers, done)

  prepared_again :
      (o : Option (PreparedQueue Bytes)) (ns : String) (q : MatchmakingQueue) (c : FunctionConfig)
      → prepared_for codec (some (prepared_for codec o ns q c)) ns q c ≡ prepared_for codec o ns q c
  prepared_again none ns q c = refl
  prepared_again (some p) ns q c = refl

  if_self {ℓ} : {A : Type ℓ} (s : String) (x y : A) → (if s == s then x else y) ≡ x
  if_self s x y = rw (eq_refl s)

  unchanged :
      (k j : String) (p : PreparedQueue Bytes) (queues : Dict (PreparedQueue Bytes))
      → get k queues ≡ some p
      → (if k == j then some p else get j queues) ≡ get j queues
  unchanged k j p queues e = elim (Bool-cases (k == j)) [
    | inl same ↦ let k≡j : k ≡ j = (eq_iff k j).0 same in rw (same, ← k≡j, e)
    | inr differ ↦ rw differ
  ]

  -- Reconciling a live and valid queue succeeds, and the controller calls again in five minutes;
  -- reconciling it again then succeeds too and changes no entry.
  pub reconcile_repeats :
      (registry : QueueRegistry Bytes) (q : MatchmakingQueue) (ns : String) (c : FunctionConfig)
      (j : String)
      → q.namespace ≡ some ns
      → q.deletion_timestamp ≡ none
      → create_mmf_config registry.mmf_registry q ≡ Result.ok c
      → (once : QueueRegistry Bytes) × (twice : QueueRegistry Bytes) × (reconcile codec registry q
          ≡ ok (once, Result.ok (requeue 300)))
        × (reconcile codec once q ≡ ok (twice, Result.ok (requeue 300)))
        × (get q.name_any once.queues
            ≡ some (prepared_for codec (get q.name_any registry.queues) ns q c))
        × (get j twice.queues ≡ get j once.queues)
  reconcile_repeats registry q ns c j e live v =
      let (r, registers, done, same, entry) =
        register_queue_valid codec registry q ns c q.name_any e v in
      let here = entry ∙ if_self q.name_any _ _ in
      let v' : create_mmf_config r.0.mmf_registry q ≡ Result.ok c = rw (same, v) in
      let (s, again, done', same', entry') = register_queue_valid codec r.0 q ns c j e v' in
      (
        r.0,
        s.0,
        reconcile_live registry q ns c r e live registers done,
        reconcile_live r.0 q ns c s e live again done',
        here,
        entry'
            ∙ ap
                (λ o.
                  if q.name_any == j then some (prepared_for codec o ns q c) else get j r.0.queues)
                here
            ∙ ap (λ p. if q.name_any == j then some p else get j r.0.queues)
                (prepared_again (get q.name_any registry.queues) ns q c)
            ∙ unchanged q.name_any j _ r.0.queues here,
      )

  -- Reconciling a queue that is being deleted removes its entry and no other, and the controller
  -- does not call again by itself.
  reconcile_deleted :
      (registry : QueueRegistry Bytes) (q : MatchmakingQueue) (ns j : String) (time : Timestamp)
      → q.namespace ≡ some ns
      → q.deletion_timestamp ≡ some time
      → (after : QueueRegistry Bytes) × (reconcile codec registry q
          ≡ ok (after, Result.ok await_change))
        × (get j after.queues ≡ (if q.name_any == j then none else get j registry.queues))
  unfolding reconcile cleanup
  reconcile_deleted registry q ns j time e deleted =
      (unregister_queue registry q, simp (e, deleted), get-unregister_queue registry q j)

-- ===== src/Operator/Reconcile/ServerLaws.antt =====
-- packages/shulker-operator/src/reconcilers/minecraft_server/mod.rs: why the reconciler of a server
-- deletes it or writes its status.
use shulker.Prelude.{
  ℕ, String, false, List, [], ◌∷◌, Option, none, some, ◌≡◌, ◌≢◌, ◌∙◌, refl, ap, ◌==◌, Bool-cases,
  inl, inr, eq_iff,
}
use shulker.Outcome.{ok}
use shulker.Result.{Result}
use shulker.Agones.{GameServerStatus, GameServerStatusPort}
use shulker.Crds.Condition.{Condition, true_, false_, is_condition_true}
use shulker.Crds.Condition.Laws.{set_condition_tests}
use shulker.Matchmaking.Reconciler.{Action, requeue, await_change}
use shulker.Operator.Reconcile.{Run, call, finished, requeue_interval}
use shulker.Operator.Reconcile.Trace.{call_keeps, of_builder-eq-ok}
use shulker.Operator.Reconcile.Server.{
  ServerStep, get_cluster, config_map, game_server, delete_server, patch_status, ServerOwner,
  ServerReplies, is_ready, set_ready, server_status, conditions_of, delete_replies, patch_replies,
  cluster_replies, config_map_replies, game_server_replies, server_steps, in_namespace,
  unless_deleted, update_status, delete_stale, patch_with, reconcile_server,
  reconcile_minecraft_server,
}

ready_is :
    (now : ℕ) (state : String) (conditions : List Condition)
    → is_condition_true "Ready" (set_ready now state conditions) ≡ is_ready state
unfolding set_ready
ready_is now state conditions = elim (Bool-cases (is_ready state)) [
  | inl e ↦ rw (
    e,
    (set_condition_tests now "Ready" true_ "ReadyOrAllocated"
        "Server is ready and maybe already allocated" conditions).0,
  )
  | inr e ↦
      rw (
        e,
        (set_condition_tests now "Ready" false_ "Unknown" "Server is not ready yet" conditions).0,
      )
]

module _ (replies : ServerReplies) (owner : ServerOwner) where
  -- The last call has brought the game server up to date, and it has this status.
  abbrev pub Saw : GameServerStatus → List ServerStep → Type 0
  Saw seen [] = ⊥
  Saw seen (get_cluster ns name ∷ before) = ⊥
  Saw seen (config_map ∷ before) = ⊥
  Saw seen (game_server cluster ∷ before) =
      replies.game_server_reply before cluster ≡ ok (Result.ok (some seen))
  Saw seen (delete_server name ∷ before) = ⊥
  Saw seen (patch_status status ∷ before) = ⊥

  -- The reason for each call, newest first.
  abbrev pub IsJustified : List ServerStep → Type 0
  IsJustified [] = Unit {0}
  IsJustified (get_cluster ns name ∷ before) = (owner.namespace ≡ some ns) × IsJustified before
  IsJustified (config_map ∷ before) = IsJustified before
  IsJustified (game_server cluster ∷ before) = IsJustified before
  IsJustified (delete_server name ∷ before) =
      (name ≡ owner.name_any)
      × ((seen : GameServerStatus) × Saw seen before × (seen.state ≡ "Shutdown"))
      × IsJustified before
  IsJustified (patch_status status ∷ before) =
      ((seen : GameServerStatus) × Saw seen before
        × (seen.state ≢ "Shutdown")
        × (status.address ≡ seen.address)
        × (is_condition_true "Ready" status.conditions ≡ is_ready seen.state))
      × IsJustified before

  patched :
      (seen : GameServerStatus) (ports : List GameServerStatusPort) (calls : List ServerStep)
      → Saw seen calls
      → (seen.state == "Shutdown") ≡ false
      → IsJustified calls
      → IsJustified (patch_with replies seen ports owner.status calls).1
  unfolding patch_with server_status
  patched seen [] calls saw alive h = h
  patched seen (first ∷ ports) calls saw alive h =
      let status = server_status (replies.now calls) seen first owner.status in
      let here : IsJustified (patch_status status ∷ calls) = (
        (
          seen,
          saw,
          (λ gone. cc (alive, (eq_iff seen.state "Shutdown").1 gone)),
          refl,
          ready_is (replies.now calls) seen.state (conditions_of owner.status),
        ),
        h,
      ) in
      call_keeps IsJustified (patch_status status) (patch_replies replies status)
        (λ done. finished (requeue requeue_interval)) calls here (λ done reply. here)

  deleted :
      (seen : GameServerStatus) (calls : List ServerStep)
      → Saw seen calls
      → seen.state ≡ "Shutdown"
      → IsJustified calls
      → IsJustified (delete_stale replies owner.name_any calls).1
  unfolding delete_stale
  deleted seen calls saw gone h =
      let here : IsJustified (delete_server owner.name_any ∷ calls) =
        (refl, (seen, saw, gone), h) in
      call_keeps IsJustified (delete_server owner.name_any) (delete_replies replies owner.name_any)
        (λ done. finished await_change) calls here (λ done reply. here)

  updated :
      (found : Option GameServerStatus) (calls : List ServerStep)
      → ((seen : GameServerStatus) → found ≡ some seen → Saw seen calls)
      → IsJustified calls
      → IsJustified (update_status replies owner found calls).1
  unfolding update_status
  updated none calls saw h = h
  updated (some seen) calls saw h = elim (Bool-cases (seen.state == "Shutdown")) [
    | inl e ↦ rw e (deleted seen calls (saw seen refl) ((eq_iff seen.state "Shutdown").0 e) h)
    | inr e ↦ rw e (patched seen seen.ports calls (saw seen refl) e h)
  ]

  steps_justified :
      (namespace : String)
      → owner.namespace ≡ some namespace
      → IsJustified (server_steps replies owner namespace []).1
  unfolding server_steps
  steps_justified namespace named =
      call_keeps IsJustified (get_cluster namespace owner.cluster_ref.name)
        (cluster_replies replies namespace owner.cluster_ref)
        (λ cluster. call config_map (config_map_replies replies) (λ done.
          call (game_server cluster) (game_server_replies replies cluster)
            (update_status replies owner)))
        [] (named, tt)
        (λ cluster got.
          call_keeps IsJustified config_map (config_map_replies replies)
            (λ done.
              call (game_server cluster) (game_server_replies replies cluster)
                (update_status replies owner))
            _ (named, tt)
            (λ done built.
              call_keeps IsJustified (game_server cluster) (game_server_replies replies cluster)
                (update_status replies owner) _ (named, tt)
                (λ found reply.
                  updated found _
                    (λ seen e. of_builder-eq-ok _ reply ∙ ap (λ f. ok (Result.ok f)) e)
                    (named, tt))))

  in_namespace_keeps :
      (namespace : Option String) (run : String → Run ServerStep Action)
      → ((ns : String) → namespace ≡ some ns → IsJustified (run ns []).1)
      → IsJustified (in_namespace replies namespace run []).1
  in_namespace_keeps none run h = tt
  in_namespace_keeps (some ns) run h = h ns refl

  unless_deleted_keeps :
      (deletion : Option ℕ) (run : Run ServerStep Action)
      → IsJustified (run []).1
      → IsJustified (unless_deleted replies deletion run []).1
  unless_deleted_keeps none run h = h
  unless_deleted_keeps (some timestamp) run h = tt

  -- Whatever is replied, reconciling a server deletes it only if its game server has shut down, and
  -- writes its status only if not: with the address of the game server, and as ready exactly if the
  -- game server is ready or allocated.
  pub reconcile_server-IsJustified : IsJustified (reconcile_minecraft_server replies owner []).1
  unfolding reconcile_minecraft_server reconcile_server
  reconcile_server-IsJustified = in_namespace_keeps owner.namespace _ (λ ns named.
      unless_deleted_keeps owner.is_being_deleted _
        (in_namespace_keeps owner.namespace _ steps_justified))

-- ===== src/Operator/Allocation/Server.antt =====
-- packages/shulker-operator/src/summon.rs: what a game server that is made by hand looks like.
use shulker.Prelude.{
  ◌≡◌, refl, ◌∙◌, String, [], ◌∷◌, Option, none, some, ◌==◌, if◌then◌else◌, Bool-cases, inl, inr,
}
use shulker.Prelude.Dict.{Dict, get, insert, extend, get-insert}
use shulker.Prelude.Text.{◌⧺◌}
use shulker.Crds.Schemas.{or}
use shulker.Kubernetes.{OwnerReference}
use shulker.Operator.Summon.{Fleet, GameServer, Cluster, summoned}

-- The value of a key in the last entry that has it, the one that counts when entries are inserted.
abbrev pub latest : String → Dict String → Option String
latest key [] = none
latest key ((k, v) ∷ entries) = or (latest key entries) (if k == key then some v else none)

if_or :
    (o : Option String) (v k key : String)
    → (if k == key then some v else o) ≡ or (if k == key then some v else none) o
if_or o v k key = elim (Bool-cases (k == key)) [ inl e ↦ rw e | inr e ↦ rw e ]

or_assoc : (a b c : Option String) → or a (or b c) ≡ or (or a b) c
or_assoc none b c = refl
or_assoc (some a) b c = refl

get-extend-latest :
    (key : String) (entries more : Dict String)
    → get key (extend entries more) ≡ or (latest key more) (get key entries)
unfolding extend
get-extend-latest key entries [] = refl
get-extend-latest key entries ((k, v) ∷ more) =
    get-extend-latest key (insert k v entries) more
    ∙ rw (get-insert k key v entries, if_or (get key entries) v k key)
        (or_assoc (latest key more) (if k == key then some v else none) (get key entries))

-- A game server with the template of a fleet and that fleet as its owner and namespace, the ticket
-- and the fleet in its labels, and the annotations asked for over those of the template.
abbrev pub IsMadeFor :
    {Spec : Type 0} → Fleet Spec → Dict String → String → GameServer Spec → Type 0
IsMadeFor fleet custom_annotations order_ticket game_server =
    (game_server.spec ≡ fleet.template_spec)
    × (game_server.namespace ≡ fleet.namespace)
    × (game_server.name ≡ none)
    × (game_server.generate_name ≡ some (fleet.name_any ⧺ "-manual-"))
    × ((reference : OwnerReference) × (fleet.controller_owner_ref ≡ some reference)
        × (game_server.owner_references ≡ reference ∷ []))
    × ((key : String)
        → get key game_server.labels ≡ (
            if "shulker.io/order-ticket" == key
            then some order_ticket
            else if "agones.dev/fleet" == key
            then some fleet.name_any
            else get key fleet.template_labels))
    × ((key : String)
        → get key game_server.annotations
          ≡ or (latest key custom_annotations) (get key fleet.template_annotations))

pub summoned-IsMadeFor :
    {Spec : Type 0} (cluster : Cluster Spec) (fleet : Fleet Spec) (custom : Dict String)
    (order_ticket : String) (reference : OwnerReference)
    → fleet.controller_owner_ref ≡ some reference
    → IsMadeFor fleet custom order_ticket
        (summoned cluster fleet (some custom) order_ticket reference)
summoned-IsMadeFor cluster fleet custom order_ticket reference owner = (
  refl,
  refl,
  refl,
  refl,
  (reference, owner, refl),
  (λ key. rw (
    get-insert "shulker.io/order-ticket" key order_ticket
        (insert "agones.dev/fleet" fleet.name_any fleet.template_labels),
    get-insert "agones.dev/fleet" key fleet.name_any fleet.template_labels,
  )),
  (λ key. get-extend-latest key fleet.template_annotations custom),
)

-- ===== src/Operator/Summon.antt =====
-- packages/shulker-operator/src/summon.rs: summoning a game server by hand, with the API objects,
-- the calls and the cluster that the allocation (Operator/Allocation) shares. The API server and
-- Agones' allocator are functions of the calls before, newest first, and so is the random ticket.
use shulker.Prelude.{ℕ, zero, suc, String, List, [], ◌∷◌, Option, none, some}
use shulker.Prelude.Dict.{Dict, insert, extend}
use shulker.Prelude.Text.{◌⧺◌}
use shulker.Outcome.{Outcome, ok, panicked}
use shulker.Result.{Result}
use shulker.Kubernetes.{KubeError, OwnerReference}
use shulker.Matchmaking.Director.{Status}

abbrev pub order_ticket_annotation : String
order_ticket_annotation = "shulker.io/order-ticket"

-- A MinecraftServerFleet, as far as its name and its namespace.
pub record MinecraftServerFleet : Type 0 where
  pub name_any : String
  pub namespace : Option String

-- Agones' fleet, with the metadata of its template (empty if there is none) and its specification.
pub record Fleet (Spec : Type 0) : Type 0 where
  pub name_any : String
  pub namespace : Option String
  pub template_labels : Dict String
  pub template_annotations : Dict String
  pub template_spec : Spec
  pub controller_owner_ref : Option OwnerReference

pub record GameServer (Spec : Type 0) : Type 0 where
  pub generate_name : Option String
  pub name : Option String
  pub namespace : Option String
  pub labels : Dict String
  pub annotations : Dict String
  pub owner_references : List OwnerReference
  pub spec : Spec

pub record AllocationRequest : Type 0 where
  pub namespace : String
  pub match_labels : Dict String
  pub annotations : Dict String

pub data Call (Spec : Type 0) : Type 0 where
  get_minecraft_server_fleet : String → String → Call Spec
  allocate : AllocationRequest → Call Spec
  get_fleet : String → String → Call Spec
  create_game_server : String → GameServer Spec → Call Spec
  list_game_servers : String → String → Call Spec

-- A creation may succeed with a reply that cannot be read.
pub data CreateError : Type 0 where
  serde_error : CreateError
  refused : KubeError → CreateError

-- The source of an `anyhow::Error`.
pub data Failure : Type 0 where
  kube : KubeError → Failure
  message : String → Failure

pub record Cluster (Spec : Type 0) : Type 0 where
  pub minecraft_server_fleet :
      List (Call Spec) → String → String → Result KubeError MinecraftServerFleet
  pub allocated : List (Call Spec) → AllocationRequest → Result Status String
  pub fleet : List (Call Spec) → String → String → Result KubeError (Fleet Spec)
  pub created : List (Call Spec) → String → GameServer Spec → Result CreateError (GameServer Spec)
  pub listed : List (Call Spec) → String → String → Result KubeError (List (GameServer Spec))
  pub order_ticket : List (Call Spec) → String
  -- The number of retries of `ExponentialBuilder::default()`.
  pub max_times : ℕ
  pub display : Failure → String

abbrev pub Effect : Type 0 → Type 0 → Type 0 → Type 0
Effect Spec E A = Outcome (Result E A) × List (Call Spec)

-- `?` after a call, with the error mapped.
abbrev pub and_then :
    {Spec E F A B : Type 0}
    → Effect Spec E A
    → (E → F)
    → (A → List (Call Spec) → Effect Spec F B)
    → Effect Spec F B
and_then (ok (Result.ok a), calls) wrap next = next a calls
and_then (ok (Result.err e), calls) wrap next = (ok (Result.err (wrap e)), calls)
and_then (panicked, calls) wrap next = (panicked, calls)
and_then (Outcome.running, calls) wrap next = (Outcome.running, calls)

-- `Option::unwrap` in the middle of such code.
abbrev pub with_some :
    {Spec E A B : Type 0} → Option A → List (Call Spec) → (A → Effect Spec E B) → Effect Spec E B
with_some none calls next = (panicked, calls)
with_some (some a) calls next = next a

-- Another attempt after one that found nothing.
abbrev pub or_retry :
    {Spec : Type 0}
    → Result Failure (GameServer Spec)
    → List (Call Spec)
    → (List (Call Spec) → Result Failure (GameServer Spec) × List (Call Spec))
    → Result Failure (GameServer Spec) × List (Call Spec)
or_retry (Result.ok game_server) calls next = (Result.ok game_server, calls)
or_retry (Result.err e) calls next = next calls

module _ {Spec : Type 0} (cluster : Cluster Spec) where
  unfoldable pub first_listed :
      String → Result KubeError (List (GameServer Spec)) → Result Failure (GameServer Spec)
  first_listed order_ticket (Result.err e) = Result.err (kube e)
  first_listed order_ticket (Result.ok []) =
      Result.err (message ("no game server found with ticket " ⧺ order_ticket))
  first_listed order_ticket (Result.ok (game_server ∷ game_servers)) = Result.ok game_server

  -- The label selector of the list.
  abbrev pub selector : String → String
  selector order_ticket = order_ticket_annotation ⧺ "=" ⧺ order_ticket

  unfoldable pub wait_for_game_server :
      ℕ → String → String → List (Call Spec) → Result Failure (GameServer Spec) × List (Call Spec)
  unfolding first_listed
  wait_for_game_server zero ns order_ticket calls = (
    first_listed order_ticket (cluster.listed calls ns (selector order_ticket)),
    list_game_servers ns (selector order_ticket) ∷ calls,
  )
  wait_for_game_server (suc retries) ns order_ticket calls =
      or_retry (first_listed order_ticket (cluster.listed calls ns (selector order_ticket)))
        (list_game_servers ns (selector order_ticket) ∷ calls)
        (wait_for_game_server retries ns order_ticket)

  abbrev pub summoned :
      Fleet Spec → Option (Dict String) → String → OwnerReference → GameServer Spec
  summoned fleet custom_annotations order_ticket reference = record {
    generate_name = some (fleet.name_any ⧺ "-manual-");
    name = none;
    namespace = fleet.namespace;
    labels =
        insert order_ticket_annotation order_ticket
          (insert "agones.dev/fleet" fleet.name_any fleet.template_labels);
    annotations = elim custom_annotations [
      | none ↦ fleet.template_annotations
      | some custom ↦ extend fleet.template_annotations custom
    ];
    owner_references = reference ∷ [];
    spec = fleet.template_spec;
  }

  unfoldable pub after_create :
      String
      → String
      → Result CreateError (GameServer Spec)
      → List (Call Spec)
      → Effect Spec Failure (GameServer Spec)
  unfolding wait_for_game_server
  after_create ns order_ticket (Result.ok game_server) calls = (ok (Result.ok game_server), calls)
  after_create ns order_ticket (Result.err serde_error) calls =
      let (found, calls') = wait_for_game_server cluster.max_times ns order_ticket calls in
      (ok found, calls')
  after_create ns order_ticket (Result.err (refused e)) calls = (ok (Result.err (kube e)), calls)

  unfoldable pub summon_from_fleet :
      Fleet Spec → Option (Dict String) → List (Call Spec) → Effect Spec Failure (GameServer Spec)
  unfolding after_create
  summon_from_fleet fleet custom_annotations calls =
      let order_ticket = cluster.order_ticket calls in
      with_some fleet.controller_owner_ref calls (λ reference.
        with_some fleet.namespace calls (λ ns.
          let game_server = summoned fleet custom_annotations order_ticket reference in
          after_create ns order_ticket (cluster.created calls ns game_server)
            (create_game_server ns game_server ∷ calls)))

  unfoldable pub summon_from_minecraft_server_fleet :
      MinecraftServerFleet
      → Option (Dict String)
      → List (Call Spec)
      → Effect Spec Failure (GameServer Spec)
  unfolding summon_from_fleet
  summon_from_minecraft_server_fleet minecraft_server_fleet custom_annotations calls =
      with_some minecraft_server_fleet.namespace calls (λ ns.
        and_then
          (
            ok (cluster.fleet calls ns minecraft_server_fleet.name_any),
            get_fleet ns minecraft_server_fleet.name_any ∷ calls,
          )
          kube (λ fleet. summon_from_fleet fleet custom_annotations))

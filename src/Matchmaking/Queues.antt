-- ===== src/Matchmaking/Queues.antt =====
-- packages/shulker-addon-matchmaking/src/queue_registry.rs: the queues that the director serves,
-- with the resource of packages/shulker-crds/src/matchmaking/v1alpha1/matchmaking_queue.rs. Of the
-- object's metadata the model keeps what kube's accessors `name_any` and `namespace` return.
pub mod Laws
pub mod Service
pub mod Examples
use shulker.Prelude.{ℕ, String, List, [], ◌∷◌, Option, none, some, if◌then◌else◌}
use shulker.Prelude.Dict.{Dict, get, insert, remove}
use shulker.Prelude.Int32.{I32, as_i32}
use shulker.Prelude.Text.{◌⧺◌, replace_char}
use shulker.Outcome.{Outcome, unwrap, ◌>>=◌}
use shulker.Result.{Result, ok_or}
use shulker.OpenMatch.{FunctionConfig, MatchProfile, Codec, grpc, Timestamp}
use shulker.Matchmaking.Extensions.{set_min_players_in_profile, set_max_players_in_profile}
use shulker.Matchmaking.Registry.{BuiltInType, type_name, MmfRegistry, get_mmf_config_for_type}

pub record BuiltInSpec : Type 0 where
  pub type_ : BuiltInType

pub record ProvidedSpec : Type 0 where
  pub host : String
  pub port : ℕ

pub record MmfSpec : Type 0 where
  pub built_in : Option BuiltInSpec
  pub provided : Option ProvidedSpec

-- `MinecraftServerFleetRef`.
pub record FleetRef : Type 0 where
  pub name : String

pub record MatchmakingQueueSpec : Type 0 where
  pub target_fleet_ref : FleetRef
  pub mmf : MmfSpec
  pub min_players : Option ℕ
  pub max_players : ℕ

pub record MatchmakingQueue : Type 0 where
  pub name_any : String
  pub namespace : Option String
  pub deletion_timestamp : Option Timestamp
  pub spec : MatchmakingQueueSpec

pub data RegistryError : Type 0 where
  built_in_mmf_not_found : String → RegistryError
  no_valid_mmf_configuration : String → RegistryError

pub record PreparedQueue (Bytes : Type 0) : Type 0 where
  pub namespace : String
  pub fleet_ref : FleetRef
  pub mmf_config : FunctionConfig
  pub match_profile : MatchProfile Bytes

pub record QueueRegistry (Bytes : Type 0) : Type 0 where
  pub mmf_registry : MmfRegistry
  pub queues : Dict (PreparedQueue Bytes)

new : {Bytes : Type 0} → MmfRegistry → QueueRegistry Bytes
new mmf_registry = record { mmf_registry = mmf_registry; queues = [] }

provided_config : String → Option ProvidedSpec → Result RegistryError FunctionConfig
provided_config name (some p) = Result.ok (record { host = p.host; port = p.port; type_ = grpc })
provided_config name none = Result.err (no_valid_mmf_configuration name)

choose_config :
    MmfRegistry
    → String
    → Option BuiltInSpec
    → Option ProvidedSpec
    → Result RegistryError FunctionConfig
unfolding provided_config
choose_config r name (some b) provided =
    ok_or (get_mmf_config_for_type r b.type_) (built_in_mmf_not_found (type_name b.type_))
choose_config r name none provided = provided_config name provided

unfoldable pub create_mmf_config :
    MmfRegistry → MatchmakingQueue → Result RegistryError FunctionConfig
unfolding choose_config
create_mmf_config r queue =
    choose_config r queue.name_any queue.spec.mmf.built_in queue.spec.mmf.provided

module _ {Bytes : Type 0} (codec : Codec Bytes) where
  set_min_if_given : Option ℕ → MatchProfile Bytes → MatchProfile Bytes
  set_min_if_given none profile = profile
  set_min_if_given (some min_players) profile =
      set_min_players_in_profile codec profile (as_i32 min_players)

  pub create_match_profile : MatchmakingQueue → MatchProfile Bytes
  unfolding set_min_if_given
  create_match_profile queue =
      set_max_players_in_profile codec
        (set_min_if_given queue.spec.min_players (record {
          name = "shulker_" ⧺ replace_char b'-' "_" queue.name_any;
          pools =
              record {
                name = "pool_default";
                tag_present_filters = record { tag = queue.name_any } ∷ [];
              }
              ∷ [];
          extensions = [];
        }))
        (as_i32 queue.spec.max_players)

  -- `PreparedQueue::from`: panics for a queue with no namespace.
  pub from : MmfRegistry → MatchmakingQueue → Outcome (Result RegistryError (PreparedQueue Bytes))
  from r queue = do
    namespace ← unwrap queue.namespace
    Outcome.ok (elim (create_mmf_config r queue) [
      | Result.ok config ↦ Result.ok (record {
        namespace = namespace;
        fleet_ref = queue.spec.target_fleet_ref;
        mmf_config = config;
        match_profile = create_match_profile queue;
      })
      | Result.err e ↦ Result.err e
    ])

  -- The fleet is replaced before the configuration is computed, which may fail.
  pub update :
      PreparedQueue Bytes
      → MmfRegistry
      → MatchmakingQueue
      → PreparedQueue Bytes × Result RegistryError (Unit {0})
  update prepared r queue =
      let moved = record prepared { fleet_ref = queue.spec.target_fleet_ref } in
      elim (create_mmf_config r queue) [
        | Result.ok config ↦ (
          record moved { mmf_config = config; match_profile = create_match_profile queue },
          Result.ok tt,
        )
        | Result.err e ↦ (moved, Result.err e)
      ]

  abbrev Registered : Type 0
  Registered = QueueRegistry Bytes × Result RegistryError (Unit {0})

  insert_new :
      QueueRegistry Bytes → String → Result RegistryError (PreparedQueue Bytes) → Registered
  insert_new registry name (Result.ok prepared) =
      (record registry { queues = insert name prepared registry.queues }, Result.ok tt)
  insert_new registry name (Result.err e) = (registry, Result.err e)

  register_at :
      QueueRegistry Bytes → MatchmakingQueue → Option (PreparedQueue Bytes) → Outcome Registered
  unfolding update from insert_new
  register_at registry queue (some prepared) =
      let (updated, result) = update prepared registry.mmf_registry queue in
      Outcome.ok
        (record registry { queues = insert queue.name_any updated registry.queues }, result)
  register_at registry queue none = do
    prepared ← from registry.mmf_registry queue
    Outcome.ok (insert_new registry queue.name_any prepared)

  pub register_queue :
      QueueRegistry Bytes
      → MatchmakingQueue
      → Outcome (QueueRegistry Bytes × Result RegistryError (Unit {0}))
  unfolding register_at
  register_queue registry queue = register_at registry queue (get queue.name_any registry.queues)

pub unregister_queue :
    {Bytes : Type 0} → QueueRegistry Bytes → MatchmakingQueue → QueueRegistry Bytes
unregister_queue registry queue = record registry { queues = remove queue.name_any registry.queues }

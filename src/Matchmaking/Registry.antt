-- ===== src/Matchmaking/Registry.antt =====
-- packages/shulker-addon-matchmaking/src/mmf/registry.rs: where the built-in matchmaking functions
-- are served. A port (`u16`) is a number below 2 ^ 16, so as an `i32` it is itself.
use shulker.Prelude.{
  ℕ, ◌≡◌, refl, String, Bool, true, false, List, [], ◌∷◌, Option, none, some, if◌then◌else◌,
}
use shulker.OpenMatch.{FunctionConfig, grpc}

pub data BuiltInType : Type 0 where
  batch elo : BuiltInType

abbrev type_eq : BuiltInType → BuiltInType → Bool
type_eq batch batch = true
type_eq elo elo = true
type_eq _ _ = false

-- `Display` of the type.
abbrev pub type_name : BuiltInType → String
type_name batch = "Batch"
type_name elo = "Elo"

pub record MmfRegistry : Type 0 where
  pub entries : List (BuiltInType × FunctionConfig)

empty : MmfRegistry
empty = record { entries = [] }

lookup_type : BuiltInType → List (BuiltInType × FunctionConfig) → Option FunctionConfig
lookup_type t [] = none
lookup_type t ((u, c) ∷ rest) = if type_eq u t then some c else lookup_type t rest

insert_type :
    BuiltInType
    → FunctionConfig
    → List (BuiltInType × FunctionConfig)
    → List (BuiltInType × FunctionConfig)
insert_type t c [] = (t, c) ∷ []
insert_type t c ((u, d) ∷ rest) =
    if type_eq u t then (t, c) ∷ rest else (u, d) ∷ insert_type t c rest

register_mmf : MmfRegistry → BuiltInType → String → ℕ → MmfRegistry
unfolding insert_type
register_mmf r type_ host port = record {
  entries = insert_type type_ (record { host = host; port = port; type_ = grpc }) r.entries;
}

pub get_mmf_config_for_type : MmfRegistry → BuiltInType → Option FunctionConfig
unfolding lookup_type
get_mmf_config_for_type r type_ = lookup_type type_ r.entries

type_eq_refl : (t : BuiltInType) → type_eq t t ≡ true
type_eq_refl batch = refl
type_eq_refl elo = refl

lookup-insert_type :
    (t u : BuiltInType) (c : FunctionConfig) (l : List (BuiltInType × FunctionConfig))
    → lookup_type u (insert_type t c l) ≡ (if type_eq t u then some c else lookup_type u l)
unfolding lookup_type insert_type
lookup-insert_type t u c [] = refl
lookup-insert_type batch batch c ((batch, d) ∷ l) = refl
lookup-insert_type batch elo c ((batch, d) ∷ l) = refl
lookup-insert_type elo batch c ((batch, d) ∷ l) = refl
lookup-insert_type elo elo c ((batch, d) ∷ l) = lookup-insert_type elo elo c l
lookup-insert_type batch batch c ((elo, d) ∷ l) = lookup-insert_type batch batch c l
lookup-insert_type batch elo c ((elo, d) ∷ l) = refl
lookup-insert_type elo batch c ((elo, d) ∷ l) = refl
lookup-insert_type elo elo c ((elo, d) ∷ l) = refl

-- Registering a function decides its type's configuration, the last one winning, and no other's.
get-register_mmf :
    (r : MmfRegistry) (t u : BuiltInType) (host : String) (port : ℕ)
    → get_mmf_config_for_type (register_mmf r t host port) u ≡ (
        if type_eq t u
        then some (record { host = host; port = port; type_ = grpc })
        else get_mmf_config_for_type r u)
unfolding register_mmf get_mmf_config_for_type
get-register_mmf r t u host port = lookup-insert_type t u _ r.entries

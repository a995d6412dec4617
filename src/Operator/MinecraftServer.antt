-- ===== src/Operator/MinecraftServer.antt =====
-- packages/shulker-operator/src/reconcilers/minecraft_server: the resources of a server, with the
-- labels (mod.rs), the names and the paths that they share.
pub mod Env
pub mod GameServer
pub mod Config
pub mod Laws
pub mod Rcon
pub mod Examples
use shulker.Prelude.{String, [], ◌∷◌, Option}
use shulker.Prelude.Dict.{Dict}
use shulker.Prelude.Text.{◌⧺◌}
use shulker.Crds.MinecraftCluster.{MinecraftCluster}
use shulker.Crds.MinecraftServer.{MinecraftServer}
use shulker.Crds.MinecraftServerFleet.{MinecraftServerFleet}
use shulker.Operator.Resources.Resolver.{AgentConfig}

abbrev pub minecraft_server_shulker_config_dir : String
minecraft_server_shulker_config_dir = "/mnt/shulker/config"

abbrev pub minecraft_server_config_dir : String
minecraft_server_config_dir = "/config"

abbrev pub minecraft_server_data_dir : String
minecraft_server_data_dir = "/data"

-- The variable SHULKER_RCON_PASSWORD of the operator is part of the context.
pub record GameServerBuilderContext : Type 0 where
  pub cluster : MinecraftCluster
  pub agent_config : AgentConfig
  pub owning_fleet : Option MinecraftServerFleet
  pub rcon_password_variable : Option String

abbrev pub get_labels : MinecraftServer → String → String → Dict String
get_labels minecraft_server name component =
    ("app.kubernetes.io/name", name)
    ∷ ("app.kubernetes.io/instance", name ⧺ "-" ⧺ minecraft_server.name_any)
    ∷ ("app.kubernetes.io/component", component)
    ∷ ("app.kubernetes.io/part-of", "cluster-" ⧺ minecraft_server.spec.cluster_ref.name)
    ∷ ("app.kubernetes.io/managed-by", "shulker-operator")
    ∷ ("minecraftcluster.shulkermc.io/name", minecraft_server.spec.cluster_ref.name)
    ∷ []

abbrev game_server_name : MinecraftServer → String
game_server_name minecraft_server = minecraft_server.name_any

abbrev pub config_map_name : MinecraftServer → String
config_map_name minecraft_server = minecraft_server.name_any ⧺ "-config"

-- ===== src/Operator/MinecraftServer/Config.antt =====
-- packages/shulker-operator/src/reconcilers: the configuration of a server
-- (minecraft_server/config_map.rs) and that of the servers of a fleet
-- (minecraft_server_fleet/config_map.rs). What `serde` and the included script give are arguments.
use shulker.Prelude.{String, Bool, true, false, not, [], ◌∷◌, Option, none, some}
use shulker.Prelude.Dict.{Dict, insert, is_some}
use shulker.Prelude.Text.{◌⧺◌, show_u32, show_bool}
use shulker.Outcome.{Outcome, ok, unwrap, ◌>>=◌}
use shulker.Kubernetes.{Object}
use shulker.Kubernetes.Pod.{meta_of}
use shulker.Crds.MinecraftServer.{
  MinecraftServer, MinecraftServerConfigurationSpec, ProxyForwardingMode, velocity, bungee_cord,
}
use shulker.Crds.MinecraftServerFleet.{MinecraftServerFleet}
use shulker.Operator.MinecraftServer.{get_labels}
use shulker.Operator.ServerFleet as ServerFleet

abbrev pub given_properties : Option (Dict String) → Dict String
given_properties none = []
given_properties (some properties) = properties

unfoldable pub vanilla_from_spec : MinecraftServerConfigurationSpec → Dict String
unfolding insert
vanilla_from_spec spec = insert "rcon.password" "${CFG_RCON_PASSWORD}" (
    insert "enable-rcon" "true" (
      insert "enforce-secure-profiles" "true" (
        insert "prevent-proxy-connections" "false" (
          insert "online-mode" "false" (
            insert "allow-nether" (show_bool (not spec.disable_nether)) (
              insert "max-players" (show_u32 spec.max_players)
                (given_properties spec.server_properties)))))))

-- `Display`: a line for each property, in the order of the map.
unfoldable vanilla_to_string : Dict String → String
vanilla_to_string [] = ""
vanilla_to_string ((key, value) ∷ properties) =
    key ⧺ "=" ⧺ value ⧺ "\n" ⧺ vanilla_to_string properties

pub record BukkitSettingsYml : Type 0 where
  pub allow_end : Bool

pub record BukkitAutoUpdaterYml : Type 0 where
  pub enabled : Bool

pub record BukkitYml : Type 0 where
  pub settings : BukkitSettingsYml
  pub auto_updater : BukkitAutoUpdaterYml

unfoldable bukkit_from_spec : MinecraftServerConfigurationSpec → BukkitYml
bukkit_from_spec spec = record {
  settings = record { allow_end = not spec.disable_end };
  auto_updater = record { enabled = false };
}

pub record SpigotSettingsYml : Type 0 where
  pub bungeecord : Bool
  pub restart_on_crash : Bool

pub record SpigotSaveableYml : Type 0 where
  pub disable_saving : Bool

pub record SpigotYml : Type 0 where
  pub settings : SpigotSettingsYml
  pub advancements : SpigotSaveableYml
  pub players : SpigotSaveableYml
  pub stats : SpigotSaveableYml
  pub save_user_cache_on_stop_only : Bool

abbrev pub is_bungee_cord : ProxyForwardingMode → Bool
is_bungee_cord velocity = false
is_bungee_cord bungee_cord = true

abbrev pub is_velocity : ProxyForwardingMode → Bool
is_velocity velocity = true
is_velocity bungee_cord = false

unfoldable pub spigot_from_spec : MinecraftServerConfigurationSpec → SpigotYml
spigot_from_spec spec = record {
  settings = record {
    bungeecord = is_bungee_cord spec.proxy_forwarding_mode;
    restart_on_crash = false;
  };
  advancements = record { disable_saving = true };
  players = record { disable_saving = true };
  stats = record { disable_saving = true };
  save_user_cache_on_stop_only = true;
}

pub record PaperGlobalMiscYml : Type 0 where
  pub enable_nether : Bool

pub record PaperGlobalProxiesBungeeCordYml : Type 0 where
  pub online_mode : Bool

pub record PaperGlobalProxiesVelocityYml : Type 0 where
  pub enabled : Bool
  pub online_mode : Bool
  pub secret : String

pub record PaperGlobalProxiesYml : Type 0 where
  pub bungee_cord : PaperGlobalProxiesBungeeCordYml
  pub velocity : PaperGlobalProxiesVelocityYml

pub record PaperGlobalYml : Type 0 where
  pub proxies : PaperGlobalProxiesYml
  pub misc : PaperGlobalMiscYml

unfoldable pub paper_from_spec : MinecraftServerConfigurationSpec → PaperGlobalYml
paper_from_spec spec = record {
  proxies = record {
    bungee_cord = record { online_mode = is_bungee_cord spec.proxy_forwarding_mode };
    velocity = record {
      enabled = is_velocity spec.proxy_forwarding_mode;
      online_mode = true;
      secret = "${CFG_VELOCITY_FORWARDING_SECRET}";
    };
  };
  misc = record { enable_nether = not spec.disable_nether };
}

pub record Serializers : Type 0 where
  pub bukkit_yaml : BukkitYml → Option String
  pub spigot_yaml : SpigotYml → Option String
  pub paper_yaml : PaperGlobalYml → Option String
  pub init_fs_script : String

abbrev config_map_is_needed : MinecraftServer → Bool
config_map_is_needed minecraft_server =
    not (is_some minecraft_server.spec.config.existing_config_map_name)

module _ (serializers : Serializers) where
  abbrev line_of : Option String → Outcome String
  line_of serialized = do text ← unwrap serialized; ok (text ⧺ "\n")

  unfoldable get_data_from_spec : MinecraftServerConfigurationSpec → Outcome (Dict String)
  unfolding vanilla_from_spec vanilla_to_string bukkit_from_spec spigot_from_spec paper_from_spec
  get_data_from_spec spec = do
    bukkit ← line_of (serializers.bukkit_yaml (bukkit_from_spec spec))
    spigot ← line_of (serializers.spigot_yaml (spigot_from_spec spec))
    paper ← line_of (serializers.paper_yaml (paper_from_spec spec))
    ok (
        ("init-fs.sh", serializers.init_fs_script)
        ∷ ("server.properties", vanilla_to_string (vanilla_from_spec spec))
        ∷ ("bukkit-config.yml", bukkit)
        ∷ ("spigot-config.yml", spigot)
        ∷ ("paper-global-config.yml", paper)
        ∷ [])

  unfoldable build_config_map : MinecraftServer → String → Outcome (Object (Dict String))
  unfolding get_data_from_spec
  build_config_map minecraft_server name = do
    namespace ← unwrap minecraft_server.namespace
    config_data ← get_data_from_spec minecraft_server.spec.config
    ok (record {
      metadata =
          meta_of (some name) (some namespace)
            (get_labels minecraft_server "config" "minecraft-server") [];
      body = config_data;
    })

  unfoldable build_fleet_config_map : MinecraftServerFleet → String → Outcome (Object (Dict String))
  unfolding get_data_from_spec
  build_fleet_config_map minecraft_server_fleet name = do
    namespace ← unwrap minecraft_server_fleet.namespace
    config_data ← get_data_from_spec minecraft_server_fleet.spec.template.spec.config
    ok (record {
      metadata =
          meta_of (some name) (some namespace)
            (ServerFleet.get_labels minecraft_server_fleet "config" "minecraft-server") [];
      body = config_data;
    })

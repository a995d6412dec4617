-- ===== src/Operator/ProxyFleet/Config.antt =====
-- packages/shulker-operator/src/reconcilers/proxy_fleet/config_map.rs: the configuration of a proxy.
-- What `serde` and the included scripts give are arguments.
use shulker.Prelude.{ℕ, String, Bool, true, false, List, [], ◌∷◌, Option, none, some, not, ◌||◌}
use shulker.Prelude.Dict.{Dict, insert, is_some}
use shulker.Prelude.Text.{◌⧺◌}
use shulker.Outcome.{Outcome, ok, unwrap, ◌>>=◌}
use shulker.Kubernetes.{Object}
use shulker.Kubernetes.Pod.{meta_of}
use shulker.Crds.ProxyFleet.{
  ProxyFleet, ProxyFleetTemplateConfigurationSpec, ProxyFleetServiceSpec, ProxyFleetServiceType,
  cluster_ip, node_port, load_balancer, ProxyFleetTemplateVersion, velocity, bungee_cord, waterfall,
}
use shulker.Operator.ProxyFleet.{get_labels}

pub record BungeeCordServerYml : Type 0 where
  pub motd : String
  pub address : String
  pub restricted : Bool

pub record BungeeCordListenerYml : Type 0 where
  pub host : String
  pub query_port : ℕ
  pub motd : String
  pub max_players : ℕ
  pub priorities : List String
  pub ping_passthrough : Bool
  pub force_default_server : Bool
  pub proxy_protocol : Bool

pub record BungeeCordYml : Type 0 where
  pub servers : Dict BungeeCordServerYml
  pub listeners : List BungeeCordListenerYml
  pub groups : Dict (Unit {0})
  pub online_mode : Bool
  pub ip_forward : Bool
  pub prevent_proxy_connections : Bool
  pub enforce_secure_profile : Bool
  pub log_pings : Bool
  pub reject_transfers : Bool

abbrev is_load_balancer : ProxyFleetServiceType → Bool
is_load_balancer load_balancer = true
is_load_balancer node_port = false
is_load_balancer cluster_ip = false

abbrev is_node_port : ProxyFleetServiceType → Bool
is_node_port load_balancer = false
is_node_port node_port = true
is_node_port cluster_ip = false

unfoldable pub disallow_proxy_connections : Option ProxyFleetServiceSpec → Bool
disallow_proxy_connections none = false
disallow_proxy_connections (some spec) = is_load_balancer spec.type_ || is_node_port spec.type_

abbrev bungeecord_server : ProxyFleetTemplateConfigurationSpec → String → BungeeCordServerYml
bungeecord_server spec address = record { motd = spec.motd; address = address; restricted = false }

abbrev bungeecord_listener : ProxyFleetTemplateConfigurationSpec → BungeeCordListenerYml
bungeecord_listener spec = record {
  host = "0.0.0.0:25577";
  query_port = 25577;
  motd = spec.motd;
  max_players = spec.max_players;
  priorities = "lobby" ∷ "limbo" ∷ [];
  ping_passthrough = false;
  force_default_server = true;
  proxy_protocol = spec.proxy_protocol;
}

unfoldable pub bungeecord_from_spec :
    ProxyFleetTemplateConfigurationSpec → Option ProxyFleetServiceSpec → BungeeCordYml
bungeecord_from_spec spec service_spec = record {
  servers =
      ("lobby", bungeecord_server spec "localhost:30000")
      ∷ ("limbo", bungeecord_server spec "localhost:30001")
      ∷ [];
  listeners = bungeecord_listener spec ∷ [];
  groups = [];
  online_mode = true;
  ip_forward = true;
  prevent_proxy_connections = disallow_proxy_connections service_spec;
  enforce_secure_profile = true;
  log_pings = false;
  reject_transfers = false;
}

pub record VelocityServersToml : Type 0 where
  pub lobby : String
  pub limbo : String
  pub try_ : List String

pub record VelocityAdvancedToml : Type 0 where
  pub haproxy_protocol : Bool
  pub tcp_fast_open : Bool
  pub accepts_transfers : Bool

-- The table of forced hosts is empty.
pub record VelocityToml : Type 0 where
  pub config_version : String
  pub bind : String
  pub motd : String
  pub show_max_players : ℕ
  pub online_mode : Bool
  pub force_key_authentication : Bool
  pub prevent_client_proxy_connections : Bool
  pub forwarding_secret_file : String
  pub player_info_forwarding_mode : String
  pub servers : VelocityServersToml
  pub forced_hosts : Unit {0}
  pub advanced : VelocityAdvancedToml

-- The test that `VelocityToml::from_spec` has of its own.
unfoldable pub disallow_client_proxy_connections : Option ProxyFleetServiceSpec → Bool
disallow_client_proxy_connections none = false
disallow_client_proxy_connections (some spec) =
    is_load_balancer spec.type_ || is_node_port spec.type_

unfoldable pub velocity_from_spec :
    ProxyFleetTemplateConfigurationSpec → Option ProxyFleetServiceSpec → VelocityToml
velocity_from_spec spec service_spec = record {
  config_version = "2.7";
  bind = "0.0.0.0:25577";
  motd = spec.motd;
  show_max_players = spec.max_players;
  online_mode = true;
  force_key_authentication = true;
  prevent_client_proxy_connections = disallow_client_proxy_connections service_spec;
  forwarding_secret_file = "/mnt/shulker/forwarding-secret/key";
  player_info_forwarding_mode = "modern";
  servers = record {
    lobby = "localhost:30000";
    limbo = "localhost:30001";
    try_ = "lobby" ∷ "limbo" ∷ [];
  };
  forced_hosts = tt;
  advanced = record {
    haproxy_protocol = spec.proxy_protocol;
    tcp_fast_open = true;
    accepts_transfers = true;
  };
}

pub record Serializers : Type 0 where
  pub bungeecord_yaml : BungeeCordYml → Option String
  pub velocity_toml : VelocityToml → Option String
  pub init_fs_script : String
  pub probe_readiness_script : String

abbrev config_map_is_needed : ProxyFleet → Bool
config_map_is_needed proxy_fleet =
    not (is_some proxy_fleet.spec.template.spec.config.existing_config_map_name)

module _ (serializers : Serializers) where
  -- `Display`: the text of the serializer and the end of a line.
  abbrev line_of : Option String → Outcome String
  line_of serialized = do text ← unwrap serialized; ok (text ⧺ "\n")

  abbrev proxy_config_data :
      ProxyFleetTemplateVersion → ProxyFleet → Dict String → Outcome (Dict String)
  unfolding velocity_from_spec bungeecord_from_spec
  proxy_config_data velocity proxy_fleet base = do
    text ← line_of (
        serializers.velocity_toml
          (velocity_from_spec proxy_fleet.spec.template.spec.config proxy_fleet.spec.service))
    ok (insert "velocity-config.toml" text base)
  proxy_config_data bungee_cord proxy_fleet base = do
    text ← line_of (
        serializers.bungeecord_yaml
          (bungeecord_from_spec proxy_fleet.spec.template.spec.config proxy_fleet.spec.service))
    ok (insert "bungeecord-config.yml" text base)
  proxy_config_data waterfall proxy_fleet base = do
    text ← line_of (
        serializers.bungeecord_yaml
          (bungeecord_from_spec proxy_fleet.spec.template.spec.config proxy_fleet.spec.service))
    ok (insert "bungeecord-config.yml" text base)

  unfoldable build_config_map : ProxyFleet → String → Outcome (Object (Dict String))
  unfolding proxy_config_data insert
  build_config_map proxy_fleet name = do
    config_data ← proxy_config_data proxy_fleet.spec.template.spec.version.channel proxy_fleet (
        ("init-fs.sh", serializers.init_fs_script)
        ∷ ("probe-readiness.sh", serializers.probe_readiness_script)
        ∷ ("server-icon.png", proxy_fleet.spec.template.spec.config.server_icon)
        ∷ [])
    namespace ← unwrap proxy_fleet.namespace
    ok (record {
      metadata = meta_of (some name) (some namespace) (get_labels proxy_fleet "config" "proxy") [];
      body = config_data;
    })

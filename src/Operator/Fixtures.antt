-- ===== src/Operator/Fixtures.antt =====
-- Concrete resources for the examples of the operator, after the fixtures of
-- packages/shulker-operator/src/reconcilers.
use shulker.Prelude.{String, true, [], ◌∷◌, Option, none, some}
use shulker.Result.{Result}
use shulker.Kubernetes.{KubeError}
use shulker.Kubernetes.Pod.{env_value, mount, volume, empty_dir}
use shulker.Crds.Schemas.{PodOverridesSpec, FleetAutoscalingSpec}
use shulker.Crds.MinecraftCluster.{MinecraftCluster}
use shulker.Crds.ProxyFleet as Proxies
use shulker.Crds.ProxyFleet.{ProxyFleet}
use shulker.Crds.MinecraftServer as Servers
use shulker.Crds.MinecraftServer.{MinecraftServer, MinecraftServerSpec, MinecraftServerVersion}
use shulker.Crds.MinecraftServerFleet.{MinecraftServerFleet}
use shulker.Operator.Resources.Resolver.{Surroundings}
use shulker.Operator.ProxyFleet.{FleetBuilderContext}
use shulker.Operator.MinecraftServer.{GameServerBuilderContext}

-- Nothing can be fetched. An address is its text.
abbrev pub offline : Surroundings String String
offline = record {
  urls = record {
    parse = λ text. Result.ok text;
    set_username = λ url user. some url;
    set_password = λ url word. some url;
  };
  from_utf8 = λ bytes. some bytes;
  get_secret = λ ns secret. Result.err (KubeError.other "offline");
  send = λ credentials url. Result.err "offline";
  parse_metadata = λ text. Result.err "offline";
}

abbrev pub same_text : String → String
same_text url = url

abbrev pub my_cluster : MinecraftCluster
my_cluster = record {
  name_any = "my-cluster";
  namespace = some "default";
  labels = [];
  annotations = [];
  deletion_timestamp = none;
  spec = record {
    network_admins = some ("steve" ∷ "alex" ∷ []);
    redis = none;
    external_servers =
        some (record { name = "hub"; address = "10.0.0.1:25565"; tags = "lobby" ∷ [] } ∷ []);
  };
}

abbrev my_overrides : PodOverridesSpec
my_overrides = record {
  image = none;
  env = some (env_value "EULA" "FALSE" ∷ []);
  resources = none;
  affinity = none;
  node_selector = none;
  tolerations = none;
  service_account_name = none;
  volume_mounts = some (mount "extra" "/extra" none ∷ mount "server-tmp" "/more" none ∷ []);
  volumes = some (volume "extra" empty_dir ∷ []);
  ports = none;
  health = none;
  readiness_probe = none;
}

abbrev proxy_overrides : PodOverridesSpec
proxy_overrides = record my_overrides { volume_mounts = some (mount "extra" "/extra" none ∷ []) }

abbrev pub proxy_config : Proxies.ProxyFleetTemplateConfigurationSpec
proxy_config = record {
  existing_config_map_name = none;
  plugins = none;
  patches = none;
  max_players = 1000;
  motd = "A Motd";
  server_icon = "abc==";
  proxy_protocol = true;
  ttl_seconds = 3600;
  players_delta_before_exclusion = 15;
  skip_agent_download = true;
}

abbrev pub proxy_service : Proxies.ProxyFleetServiceSpec
proxy_service = record {
  type_ = Proxies.load_balancer;
  annotations = none;
  external_traffic_policy = some Proxies.cluster;
  preferred_reconnection_address = some "127.0.0.1";
}

abbrev pub proxies_scaled_by : Option FleetAutoscalingSpec → ProxyFleet
proxies_scaled_by autoscaling = record {
  name_any = "my-proxy";
  namespace = some "default";
  labels = [];
  annotations = [];
  deletion_timestamp = none;
  spec = record {
    cluster_ref = record { name = "my-cluster" };
    replicas = 3;
    template = record {
      metadata = none;
      spec = record {
        version = record { channel = Proxies.velocity; name = "latest" };
        config = proxy_config;
        pod_overrides = some proxy_overrides;
      };
    };
    service = some proxy_service;
    autoscaling = autoscaling;
  };
}

abbrev pub proxy_context : FleetBuilderContext
proxy_context = record {
  cluster = my_cluster;
  agent_config = record { maven_repository = "https://maven"; version = "0.13.0" };
}

abbrev server_spec : MinecraftServerVersion → MinecraftServerSpec
server_spec channel = record {
  cluster_ref = record { name = "my-cluster" };
  tags = "lobby" ∷ [];
  version = record { channel = channel; name = "1.21.9"; custom_jar = none };
  config = record {
    existing_config_map_name = none;
    world = none;
    plugins = none;
    patches = none;
    max_players = 42;
    disable_nether = true;
    disable_end = true;
    server_properties = some (("level-seed", "1234") ∷ ("max-players", "7") ∷ []);
    proxy_forwarding_mode = Servers.velocity;
    lifecycle_strategy = Servers.allocate_when_not_empty;
    skip_agent_download = true;
  };
  pod_overrides = some my_overrides;
}

abbrev pub my_server : MinecraftServer
my_server = record {
  name_any = "my-server";
  namespace = some "default";
  labels = [];
  annotations = [];
  deletion_timestamp = none;
  spec = server_spec Servers.paper;
}

abbrev pub my_server_context : GameServerBuilderContext
my_server_context = record {
  cluster = my_cluster;
  agent_config = record { maven_repository = "https://maven"; version = "0.13.0" };
  owning_fleet = none;
  rcon_password_variable = some "hunter2";
}

abbrev pub minestom_fleet : MinecraftServerFleet
minestom_fleet = record {
  name_any = "my-fleet";
  namespace = some "default";
  labels = [];
  annotations = [];
  deletion_timestamp = none;
  spec = record {
    cluster_ref = record { name = "my-cluster" };
    replicas = 2;
    template = record { metadata = none; spec = server_spec Servers.minestom };
    autoscaling = none;
  };
}

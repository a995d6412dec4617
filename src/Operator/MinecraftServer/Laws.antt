-- ===== src/Operator/MinecraftServer/Laws.antt =====
-- packages/shulker-operator/src/reconcilers/minecraft_server: the pods of a server are well formed
-- (gameserver.rs), and its configuration is the operator's (config_map.rs).
use shulker.Prelude.{
  String, Bool, true, false, not, List, [], ◌∷◌, Option, some, ◌≡◌, refl, All, if◌then◌else◌,
}
use shulker.Prelude.Dict.{Dict, get, get-insert}
use shulker.Prelude.Text.{show_u32, show_bool}
use shulker.Kubernetes.Pod.{EnvVar}
use shulker.Crds.Schemas.{or}
use shulker.Crds.MinecraftServer.{
  MinecraftServer, MinecraftServerConfigurationSpec, ProxyForwardingMode, velocity, bungee_cord,
}
use shulker.Operator.Pods.Laws.{
  IsMounted, IsWellMounted, OverridesMounted, override_pod-IsWellMounted, declares,
}
use shulker.Operator.MinecraftServer.GameServer.{
  pod_spec_of, base_pod_spec, init_container, server_container, server_volumes,
  server_volume_mounts,
}
use shulker.Operator.MinecraftServer.Config.{
  vanilla_from_spec, given_properties, spigot_from_spec, paper_from_spec, is_bungee_cord,
  is_velocity,
}

init_mounts :
    (minecraft_server : MinecraftServer) (env : List EnvVar)
    → All (IsMounted (server_volumes minecraft_server)) (init_container env).volume_mounts
unfolding declares
init_mounts minecraft_server env = (refl, (refl, tt))

server_mounts :
    (minecraft_server : MinecraftServer)
    → All (IsMounted (server_volumes minecraft_server)) server_volume_mounts
unfolding declares
server_mounts minecraft_server = (refl, (refl, (refl, tt)))

-- Every volume that a container of a server mounts is a volume of its pod, if those that overrides
-- mount are volumes of the pod or of the overrides.
pub server_pod-IsWellMounted :
    (minecraft_server : MinecraftServer) (init_env env : List EnvVar)
    → OverridesMounted minecraft_server.spec.pod_overrides (server_volumes minecraft_server)
    → IsWellMounted (pod_spec_of minecraft_server init_env env)
unfolding pod_spec_of
server_pod-IsWellMounted minecraft_server init_env env given =
    override_pod-IsWellMounted minecraft_server.spec.pod_overrides
      (base_pod_spec minecraft_server (init_container init_env) (server_container env))
      (init_container init_env) (server_container env) (init_mounts minecraft_server init_env)
      (server_mounts minecraft_server) given

-- The properties that the operator sets.
abbrev pub operator_properties : MinecraftServerConfigurationSpec → Dict String
operator_properties spec =
    ("rcon.password", "${CFG_RCON_PASSWORD}")
    ∷ ("enable-rcon", "true")
    ∷ ("enforce-secure-profiles", "true")
    ∷ ("prevent-proxy-connections", "false")
    ∷ ("online-mode", "false")
    ∷ ("allow-nether", show_bool (not spec.disable_nether))
    ∷ ("max-players", show_u32 spec.max_players)
    ∷ []

or_if :
    (b : Bool) (value : String) (rest other : Option String)
    → or (if b then some value else rest) other ≡ (if b then some value else or rest other)
or_if true value rest other = refl
or_if false value rest other = refl

-- The properties of a server are those that the operator sets, and, at other keys, those that the
-- specification gives.
pub get-vanilla_from_spec :
    (spec : MinecraftServerConfigurationSpec) (key : String)
    → get key (vanilla_from_spec spec)
      ≡ or (get key (operator_properties spec)) (get key (given_properties spec.server_properties))
unfolding vanilla_from_spec get
get-vanilla_from_spec spec key = simp (get-insert, or_if)

-- Exactly one of the two ways of forwarding is on, in the configurations of Spigot and of Paper
-- alike, and it is the one that the specification asks for.
forwarding_exclusive :
    (spec : MinecraftServerConfigurationSpec)
    → ((spigot_from_spec spec).settings.bungeecord
        ≡ not (paper_from_spec spec).proxies.velocity.enabled)
      × ((paper_from_spec spec).proxies.bungee_cord.online_mode
          ≡ (spigot_from_spec spec).settings.bungeecord)
      × ((paper_from_spec spec).proxies.velocity.enabled ≡ is_velocity spec.proxy_forwarding_mode)
unfolding spigot_from_spec paper_from_spec
forwarding_exclusive spec = (exclusive spec.proxy_forwarding_mode, refl, refl)
  where
    exclusive : (mode : ProxyForwardingMode) → is_bungee_cord mode ≡ not (is_velocity mode)
    exclusive velocity = refl
    exclusive bungee_cord = refl

-- ===== src/Operator/ProxyFleet/Examples.antt =====
-- The pods, the configuration and the scale of a concrete fleet of proxies.
use shulker.Prelude.{false, String, List, [], ◌∷◌, map, none, some, ◌≡◌, refl, arith}
use shulker.Kubernetes.{Object}
use shulker.Kubernetes.Pod.{EnvVar}
use shulker.Agones.{FleetSpec}
use shulker.Crds.ProxyFleet.{ProxyFleet}
use shulker.Operator.Cluster.Redis.{managed_ref, from_cluster}
use shulker.Operator.Pods.{resolve_listed}
use shulker.Operator.Pods.Laws.{IsWellMounted, declares}
use shulker.Operator.ProxyFleet.Config.{
  velocity_from_spec, bungeecord_from_spec, BungeeCordListenerYml, BungeeCordServerYml,
}
use shulker.Operator.ProxyFleet.Volumes.{get_volumes}
use shulker.Operator.ProxyFleet.Env.{all_env, base_init_env, get_env, get_init_env, get_plugin_urls}
use shulker.Operator.ProxyFleet.Fleet.{
  pod_spec_of, build, fleet_of, game_server_spec_of, pod_template, get_game_server_spec,
  get_pod_template_spec,
}
use shulker.Operator.ProxyFleet.Laws.{proxy_pod-IsWellMounted}
use shulker.Operator.ProxyFleet.Wiring.{IsWired, proxy_pod-IsWired, proxy_configs_agree}
use shulker.Operator.ProxyFleet.Scale.{
  build_replicas_exact, HasNoReplicas, absent, rebuilt, unpoliced_fleet-HasNoReplicas,
}
use shulker.Operator.ProxyFleet.Service.{
  ProxyServiceSpec, build_service, service_name, fleet_autoscaler_is_needed,
}
use shulker.Operator.ProxyFleet.Reach.{IsReached, proxy_service-IsReached}
use shulker.Outcome.{ok}
use shulker.Prelude.Dict.{get}
use shulker.Operator.Fixtures.{
  proxies_scaled_by, proxy_context, proxy_config, proxy_service, offline, same_text,
}

abbrev fixed : ProxyFleet
fixed = proxies_scaled_by none

-- The template of this fleet has a label of its own.
abbrev labelled : ProxyFleet
labelled = record fixed {
  spec = record (fixed.spec) {
    template = record (fixed.spec.template) {
      metadata = some (record { labels = some (("tier", "edge") ∷ []); annotations = none });
    };
  };
}

proxy_pod-IsWellMounted_example : IsWellMounted (pod_spec_of proxy_context fixed [] [])
unfolding get_volumes declares
proxy_pod-IsWellMounted_example = proxy_pod-IsWellMounted proxy_context fixed [] [] (refl, tt)

proxy_pod-IsWired_example : IsWired proxy_context fixed [] []
proxy_pod-IsWired_example = proxy_pod-IsWired proxy_context fixed [] [] refl refl

proxy_configs_agree_example :
    (listener : BungeeCordListenerYml) × ((bungeecord_from_spec proxy_config
        (some proxy_service)).listeners
      ≡ listener ∷ [])
    × (listener.host ≡ (velocity_from_spec proxy_config (some proxy_service)).bind)
    × (listener.motd ≡ (velocity_from_spec proxy_config (some proxy_service)).motd)
    × (listener.max_players
        ≡ (velocity_from_spec proxy_config (some proxy_service)).show_max_players)
    × (listener.proxy_protocol
        ≡ (velocity_from_spec proxy_config (some proxy_service)).advanced.haproxy_protocol)
    × (listener.priorities ≡ (velocity_from_spec proxy_config (some proxy_service)).servers.try_)
    × (map
          (λ (e : String × BungeeCordServerYml). e.1.address)
          (bungeecord_from_spec proxy_config (some proxy_service)).servers
        ≡ (velocity_from_spec proxy_config (some proxy_service)).servers.lobby
          ∷ (velocity_from_spec proxy_config (some proxy_service)).servers.limbo
          ∷ [])
    × ((bungeecord_from_spec proxy_config (some proxy_service)).prevent_proxy_connections
        ≡ (velocity_from_spec proxy_config (some proxy_service)).prevent_client_proxy_connections)
proxy_configs_agree_example = proxy_configs_agree proxy_config (some proxy_service)

abbrev init_env : List EnvVar
init_env = base_init_env offline same_text fixed

abbrev env : List EnvVar
env = all_env proxy_context fixed (managed_ref proxy_context.cluster)

abbrev three_proxies : Object FleetSpec
three_proxies =
    fleet_of offline same_text fixed "default" "my-proxy" 3
      (game_server_spec_of fixed (pod_template proxy_context fixed init_env env))

build_replicas_exact_example : three_proxies.body.replicas ≡ some 3
unfolding build get_game_server_spec get_pod_template_spec get_init_env get_plugin_urls get_env
    from_cluster resolve_listed
build_replicas_exact_example =
    build_replicas_exact offline same_text fixed "my-proxy" none proxy_context
      {built = three_proxies} refl refl (omega arith)

-- Fleets that ask for 3 proxies and for autoscaling, but give no policy.
abbrev unscaled : ProxyFleet
unscaled = proxies_scaled_by (some (record { agones_policy = none }))

abbrev no_proxies : Object FleetSpec
no_proxies =
    fleet_of offline same_text unscaled "default" "my-proxy" 0
      (game_server_spec_of unscaled (pod_template proxy_context unscaled init_env env))

unpoliced_fleet-HasNoReplicas_example :
    (fleet_autoscaler_is_needed unscaled ≡ false) × HasNoReplicas (some no_proxies)
unfolding build get_game_server_spec get_pod_template_spec get_init_env get_plugin_urls get_env
    from_cluster resolve_listed
unpoliced_fleet-HasNoReplicas_example =
    unpoliced_fleet-HasNoReplicas offline same_text "my-proxy" proxy_context unscaled
      (some no_proxies) {built = no_proxies} (_, refl, refl)
      (rebuilt unscaled absent (_, refl, refl) refl) refl

proxy_service-IsReached_example :
    (service : Object ProxyServiceSpec) × (build_service labelled (service_name labelled)
      ≡ ok service)
    × IsReached proxy_context labelled [] [] service
unfolding get
proxy_service-IsReached_example =
    proxy_service-IsReached proxy_context labelled [] [] proxy_service "default" refl refl
      (refl, (refl, (refl, (refl, (refl, (refl, (refl, tt)))))))

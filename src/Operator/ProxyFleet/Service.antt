-- ===== src/Operator/ProxyFleet/Service.antt =====
-- packages/shulker-operator/src/reconcilers/proxy_fleet: the service in front of a fleet of proxies
-- (service.rs) and its autoscaler (fleet_autoscaler.rs).
use shulker.Prelude.{String, Bool, List, [], ◌∷◌, Option, none, some}
use shulker.Prelude.Dict.{Dict, is_some}
use shulker.Outcome.{Outcome, ok, unwrap, ◌>>=◌}
use shulker.Kubernetes.{Object}
use shulker.Kubernetes.Pod.{meta_of}
use shulker.Agones.{FleetAutoscalerSpec, FleetAutoscalerPolicySpec}
use shulker.Crds.Schemas.{FleetAutoscalingSpec}
use shulker.Crds.ProxyFleet.{
  ProxyFleet, ProxyFleetServiceSpec, ProxyFleetServiceType, cluster_ip, node_port, load_balancer,
  ProxyFleetServiceExternalTrafficPolicy, cluster, local,
}
use shulker.Operator.Cluster.Redis.{ServicePort}
use shulker.Operator.Pods.{option_bind}
use shulker.Operator.ProxyFleet.{get_labels, fleet_name}

pub record ProxyServiceSpec : Type 0 where
  pub selector : Dict String
  pub type_ : String
  pub external_traffic_policy : Option String
  pub ports : List ServicePort

-- `Display`.
abbrev service_type_to_string : ProxyFleetServiceType → String
service_type_to_string cluster_ip = "ClusterIP"
service_type_to_string node_port = "NodePort"
service_type_to_string load_balancer = "LoadBalancer"

-- `Display`.
abbrev policy_to_string : ProxyFleetServiceExternalTrafficPolicy → String
policy_to_string cluster = "Cluster"
policy_to_string local = "Local"

abbrev pub service_name : ProxyFleet → String
service_name proxy_fleet = proxy_fleet.name_any

abbrev service_is_needed : ProxyFleet → Bool
service_is_needed proxy_fleet = is_some proxy_fleet.spec.service

abbrev pub annotations_or_none : Option (Dict String) → Dict String
annotations_or_none none = []
annotations_or_none (some annotations) = annotations

abbrev pub proxy_service_of : ProxyFleet → ProxyFleetServiceSpec → ProxyServiceSpec
proxy_service_of proxy_fleet service_config = record {
  selector = get_labels proxy_fleet "proxy" "proxy";
  type_ = service_type_to_string service_config.type_;
  external_traffic_policy =
      option_bind (λ p. some (policy_to_string p)) service_config.external_traffic_policy;
  ports =
      record {
        name = some "minecraft";
        protocol = some "TCP";
        port = 25565;
        target_port = some "minecraft";
      }
      ∷ [];
}

unfoldable pub build_service : ProxyFleet → String → Outcome (Object ProxyServiceSpec)
build_service proxy_fleet name = do
  service_config ← unwrap proxy_fleet.spec.service
  namespace ← unwrap proxy_fleet.namespace
  ok (record {
    metadata =
        meta_of (some name) (some namespace) (get_labels proxy_fleet "proxy" "proxy")
          (annotations_or_none service_config.annotations);
    body = proxy_service_of proxy_fleet service_config;
  })

abbrev policy_of : Option FleetAutoscalingSpec → Option FleetAutoscalerPolicySpec
policy_of = option_bind (λ (a : FleetAutoscalingSpec). a.agones_policy)

abbrev pub fleet_autoscaler_is_needed : ProxyFleet → Bool
fleet_autoscaler_is_needed proxy_fleet = is_some (policy_of proxy_fleet.spec.autoscaling)

unfoldable build_fleet_autoscaler : ProxyFleet → String → Outcome (Object FleetAutoscalerSpec)
build_fleet_autoscaler proxy_fleet name = do
  namespace ← unwrap proxy_fleet.namespace
  policy ← unwrap (policy_of proxy_fleet.spec.autoscaling)
  ok (record {
    metadata =
        meta_of (some name) (some namespace) (get_labels proxy_fleet "fleet-autoscaler" "proxy") [];
    body = record { fleet_name = fleet_name proxy_fleet; policy = policy };
  })

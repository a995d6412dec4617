-- ===== src/Operator/ProxyFleet/Reach.antt =====
-- packages/shulker-operator/src/reconcilers/proxy_fleet: how players reach the proxies of a fleet, by
-- the service (service.rs), the pods (fleet.rs) and what the proxy listens on (config_map.rs).
use shulker.Prelude.{
  Bool, false, String, List, [], ◌∷◌, Option, none, some, ◌≡◌, refl, ◌==◌, sym, ap, ◌∙◌, find, All,
}
use shulker.Prelude.Dict.{Dict, get, get-extend}
use shulker.Prelude.Text.{◌⧺◌, show_u32}
use shulker.Outcome.{ok}
use shulker.Kubernetes.{Object}
use shulker.Kubernetes.Pod.{EnvVar, ContainerPort, Container, PodSpec, meta_of}
use shulker.Crds.Schemas.{PodOverridesSpec, TemplateMeta}
use shulker.Crds.ProxyFleet.{ProxyFleet, ProxyFleetServiceSpec}
use shulker.Operator.Cluster.Redis.{ServicePort}
use shulker.Operator.Pods.{option_bind, override_container, override_pod}
use shulker.Operator.ProxyFleet.{FleetBuilderContext, get_labels}
use shulker.Operator.ProxyFleet.Config.{velocity_from_spec}
use shulker.Operator.ProxyFleet.Volumes.{get_volumes}
use shulker.Operator.ProxyFleet.Fleet.{pod_spec_of, pod_labels, extended, proxy_container}
use shulker.Operator.ProxyFleet.Service.{
  ProxyServiceSpec, build_service, service_name, proxy_service_of, annotations_or_none,
}

-- A selector selects what has its labels.
abbrev pub Selects : Dict String → Dict String → Type 0
Selects selector labels =
    All (λ (entry : String × String). get entry.0 labels ≡ some entry.1) selector

-- Additional entries at none of the keys of a map.
abbrev pub IsApart : Option (Dict String) → Dict String → Type 0
IsApart none labels = Unit {0}
IsApart (some additional) labels =
    All (λ (entry : String × String). get entry.0 additional ≡ none) labels

extend_selected :
    (additional labels selector : Dict String)
    → All (λ (entry : String × String). get entry.0 additional ≡ none) selector
    → Selects selector labels
    → Selects selector (extended labels (some additional))
extend_selected additional labels [] apart selected = tt
extend_selected additional labels ((k, v) ∷ selector) (absent, apart) (has, selected) = (
  get-extend k labels additional absent ∙ has,
  extend_selected additional labels selector apart selected,
)

extended-Selects :
    (additional : Option (Dict String)) (labels : Dict String)
    → IsApart additional labels
    → Selects labels labels
    → Selects labels (extended labels additional)
extended-Selects none labels apart selected = selected
extended-Selects (some additional) labels apart selected =
    extend_selected additional labels labels apart selected

get_labels-Selects :
    (proxy_fleet : ProxyFleet) (name component : String)
    → Selects (get_labels proxy_fleet name component) (get_labels proxy_fleet name component)
unfolding get
get_labels-Selects proxy_fleet name component =
    (refl, (refl, (refl, (refl, (refl, (refl, (refl, tt)))))))

abbrev is_named : String → ContainerPort → Bool
is_named name port = elim (port.name) [ none ↦ false | some n ↦ n == name ]

-- The port of a pod under a name, as a service looks it up, in the first container.
abbrev port_named : String → List Container → Option ContainerPort
port_named name [] = none
port_named name (container ∷ containers) = find (is_named name) container.ports

abbrev proxy_port : ContainerPort
proxy_port = record { name = some "minecraft"; container_port = 25577 }

containers_kept :
    (overrides : Option PodOverridesSpec) (pod_spec : PodSpec)
    → (override_pod overrides pod_spec).containers ≡ pod_spec.containers
unfolding override_pod
containers_kept none pod_spec = refl
containers_kept (some overrides) pod_spec = refl

-- Ports that overrides add come after the one of the proxy.
port_kept :
    (overrides : Option PodOverridesSpec) (container : Container)
    → container.ports ≡ proxy_port ∷ []
    → port_named "minecraft" (override_container overrides container ∷ []) ≡ some proxy_port
unfolding override_container
port_kept none container ports = simp ports
port_kept (some overrides) container ports = simp ports

service_built :
    (proxy_fleet : ProxyFleet) (config : ProxyFleetServiceSpec) (namespace : String)
    → proxy_fleet.spec.service ≡ some config
    → proxy_fleet.namespace ≡ some namespace
    → build_service proxy_fleet (service_name proxy_fleet)
      ≡ ok (record {
        metadata =
            meta_of
              (some (service_name proxy_fleet))
              (some namespace)
              (get_labels proxy_fleet "proxy" "proxy")
              (annotations_or_none config.annotations);
        body = proxy_service_of proxy_fleet config;
      })
unfolding build_service
service_built proxy_fleet config namespace asked named = simp (asked, named)

-- The service selects the pods, and its port is that of a pod, on which the proxy listens.
abbrev pub IsReached :
    FleetBuilderContext → ProxyFleet → List EnvVar → List EnvVar → Object ProxyServiceSpec → Type 0
IsReached context proxy_fleet init_env env service =
    Selects service.body.selector (pod_labels proxy_fleet)
    × (service.metadata.namespace ≡ proxy_fleet.namespace)
    × ((service_port : ServicePort) × (port : ContainerPort) × (target : String)
        × (service.body.ports ≡ service_port ∷ [])
        × (service_port.target_port ≡ some target)
        × (port_named target (pod_spec_of context proxy_fleet init_env env).containers ≡ some port)
        × ((velocity_from_spec proxy_fleet.spec.template.spec.config proxy_fleet.spec.service).bind
            ≡ "0.0.0.0:" ⧺ show_u32 port.container_port))

-- If a fleet of proxies with a namespace asks for a service, and the labels of its template leave
-- those of the operator alone, the service selects the pods of the fleet, and its port is the one
-- that the pods declare and Velocity listens on, whatever the overrides.
pub proxy_service-IsReached :
    (context : FleetBuilderContext) (proxy_fleet : ProxyFleet) (init_env env : List EnvVar)
    (config : ProxyFleetServiceSpec) (namespace : String)
    → proxy_fleet.spec.service ≡ some config
    → proxy_fleet.namespace ≡ some namespace
    → IsApart
        (option_bind (λ (m : TemplateMeta). m.labels) proxy_fleet.spec.template.metadata)
        (get_labels proxy_fleet "proxy" "proxy")
    → (service : Object ProxyServiceSpec) × (build_service proxy_fleet (service_name proxy_fleet)
        ≡ ok service)
      × IsReached context proxy_fleet init_env env service
unfolding build_service pod_spec_of proxy_container velocity_from_spec show_u32 get_volumes
proxy_service-IsReached context proxy_fleet init_env env config namespace asked named apart = (
  _,
  service_built proxy_fleet config namespace asked named,
  (
    extended-Selects _ _ apart (get_labels-Selects proxy_fleet "proxy" "proxy"),
    sym named,
    (
      _,
      proxy_port,
      _,
      refl,
      refl,
      ap (port_named "minecraft") (containers_kept proxy_fleet.spec.template.spec.pod_overrides _)
          ∙ port_kept proxy_fleet.spec.template.spec.pod_overrides
              (proxy_container context proxy_fleet env) refl,
      refl,
    ),
  ),
)

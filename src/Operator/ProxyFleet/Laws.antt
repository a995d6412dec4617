-- ===== src/Operator/ProxyFleet/Laws.antt =====
-- packages/shulker-operator/src/reconcilers/proxy_fleet: the pods of a fleet of proxies are well
-- formed and use what the reconciler of their cluster builds.
use shulker.Prelude.{Bool, true, false, List, ◌++◌, refl, All}
use shulker.Kubernetes.Pod.{EnvVar}
use shulker.Crds.ProxyFleet.{ProxyFleet}
use shulker.Operator.Cluster.Servers.{has_servers}
use shulker.Operator.Pods.Laws.{
  IsMounted, IsWellMounted, OverridesMounted, override_pod-IsWellMounted, declares,
}
use shulker.Operator.ProxyFleet.{FleetBuilderContext}
use shulker.Operator.ProxyFleet.Volumes.{
  get_volumes, get_volume_mounts, init_volume_mounts, base_volumes, base_mounts, external_volumes,
  external_mounts,
}
use shulker.Operator.ProxyFleet.Fleet.{pod_spec_of, base_pod_spec, proxy_container, init_container}

init_mounts :
    (context : FleetBuilderContext) (proxy_fleet : ProxyFleet)
    → All (IsMounted (get_volumes context proxy_fleet)) init_volume_mounts
unfolding get_volumes declares
init_mounts context proxy_fleet = (refl, (refl, tt))

mounts_if :
    (context : FleetBuilderContext) (proxy_fleet : ProxyFleet) (external : Bool)
    → All
        (IsMounted (base_volumes proxy_fleet ++ external_volumes context external))
        (base_mounts ++ external_mounts external)
unfolding declares
mounts_if context proxy_fleet true = (refl, (refl, (refl, (refl, (refl, tt)))))
mounts_if context proxy_fleet false = (refl, (refl, (refl, (refl, tt))))

-- Every volume that a container of a proxy mounts is a volume of its pod, if those that overrides
-- mount are volumes of the pod or of the overrides.
pub proxy_pod-IsWellMounted :
    (context : FleetBuilderContext) (proxy_fleet : ProxyFleet) (init_env env : List EnvVar)
    → OverridesMounted proxy_fleet.spec.template.spec.pod_overrides
        (get_volumes context proxy_fleet)
    → IsWellMounted (pod_spec_of context proxy_fleet init_env env)
unfolding pod_spec_of proxy_container get_volumes get_volume_mounts
proxy_pod-IsWellMounted context proxy_fleet init_env env given =
    override_pod-IsWellMounted proxy_fleet.spec.template.spec.pod_overrides
      (base_pod_spec context proxy_fleet (init_container init_env)
        (proxy_container context proxy_fleet env))
      (init_container init_env) (proxy_container context proxy_fleet env)
      (init_mounts context proxy_fleet)
      (mounts_if context proxy_fleet (has_servers context.cluster.spec.external_servers)) given

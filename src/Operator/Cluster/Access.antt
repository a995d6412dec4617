-- ===== src/Operator/Cluster/Access.antt =====
-- packages/shulker-operator/src/reconcilers/minecraft_cluster: what the proxies and the servers of a
-- cluster may do: their service accounts, roles and role bindings (proxy_*.rs,
-- minecraft_server_*.rs).
use shulker.Prelude.{String, Bool, not, List, [], ◌∷◌, Option, ◌==◌}
use shulker.Prelude.Text.{◌⧺◌}
use shulker.Outcome.{Outcome}
use shulker.Kubernetes.{Object}
use shulker.Crds.MinecraftCluster.{MinecraftCluster}
use shulker.Operator.Cluster.{resource_of}

pub record PolicyRule : Type 0 where
  pub api_groups : List String
  pub resources : List String
  pub verbs : List String

pub record RoleRef : Type 0 where
  pub api_group : String
  pub kind : String
  pub name : String

pub record Subject : Type 0 where
  pub kind : String
  pub name : String
  pub namespace : Option String

pub record RoleBinding : Type 0 where
  pub role_ref : RoleRef
  pub subjects : List Subject

abbrev pub proxy_service_account_name : MinecraftCluster → String
proxy_service_account_name cluster = "shulker-" ⧺ cluster.name_any ⧺ "-proxy"

unfoldable build_proxy_service_account : MinecraftCluster → String → Outcome (Object (Unit {0}))
build_proxy_service_account cluster name =
    resource_of cluster name "service-account" "proxy-rbac" tt

abbrev server_service_account_name : MinecraftCluster → String
server_service_account_name cluster = "shulker-" ⧺ cluster.name_any ⧺ "-server"

unfoldable build_server_service_account : MinecraftCluster → String → Outcome (Object (Unit {0}))
build_server_service_account cluster name =
    resource_of cluster name "service-account" "minecraft-server-rbac" tt

abbrev gameservers_rule : PolicyRule
gameservers_rule = record {
  api_groups = "agones.dev" ∷ [];
  resources = "gameservers" ∷ [];
  verbs = "list" ∷ "watch" ∷ "update" ∷ "patch" ∷ [];
}

abbrev services_rule : PolicyRule
services_rule = record {
  api_groups = "" ∷ [];
  resources = "services" ∷ [];
  verbs = "list" ∷ "get" ∷ "watch" ∷ [];
}

abbrev events_rule : PolicyRule
events_rule = record {
  api_groups = "" ∷ [];
  resources = "events" ∷ [];
  verbs = "create" ∷ "patch" ∷ [];
}

abbrev proxy_role_name : MinecraftCluster → String
proxy_role_name cluster = "shulker:" ⧺ cluster.name_any ⧺ ":proxy"

unfoldable build_proxy_role : MinecraftCluster → String → Outcome (Object (List PolicyRule))
build_proxy_role cluster name =
    resource_of cluster name "role" "proxy-rbac"
      (gameservers_rule ∷ services_rule ∷ events_rule ∷ [])

abbrev server_role_name : MinecraftCluster → String
server_role_name cluster = "shulker:" ⧺ cluster.name_any ⧺ ":server"

unfoldable build_server_role : MinecraftCluster → String → Outcome (Object (List PolicyRule))
build_server_role cluster name =
    resource_of cluster name "role" "minecraft-server-rbac" (gameservers_rule ∷ events_rule ∷ [])

abbrev binding : MinecraftCluster → String → String → RoleBinding
binding cluster role account = record {
  role_ref = record { api_group = "rbac.authorization.k8s.io"; kind = "Role"; name = role };
  subjects = record { kind = "ServiceAccount"; name = account; namespace = cluster.namespace } ∷ [];
}

abbrev proxy_role_binding_name : MinecraftCluster → String
proxy_role_binding_name cluster = "shulker:" ⧺ cluster.name_any ⧺ ":proxy"

abbrev proxy_role_binding_is_recreation_needed : MinecraftCluster → Object RoleBinding → Bool
proxy_role_binding_is_recreation_needed cluster role_binding =
    not (role_binding.body.role_ref.name == proxy_role_name cluster)

unfoldable build_proxy_role_binding : MinecraftCluster → String → Outcome (Object RoleBinding)
build_proxy_role_binding cluster name =
    resource_of cluster name "role-binding" "proxy-rbac"
      (binding cluster (proxy_role_name cluster) (proxy_service_account_name cluster))

abbrev server_role_binding_name : MinecraftCluster → String
server_role_binding_name cluster = "shulker:" ⧺ cluster.name_any ⧺ ":server"

abbrev server_role_binding_is_recreation_needed : MinecraftCluster → Object RoleBinding → Bool
server_role_binding_is_recreation_needed cluster role_binding =
    not (role_binding.body.role_ref.name == server_role_name cluster)

-- The component is spelled as the source spells it.
unfoldable build_server_role_binding : MinecraftCluster → String → Outcome (Object RoleBinding)
build_server_role_binding cluster name =
    resource_of cluster name "role-binding" "mincraft-server-rbac"
      (binding cluster (server_role_name cluster) (server_service_account_name cluster))

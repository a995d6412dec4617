-- ===== src/Operator/Reconcile/Replicas.antt =====
-- packages/shulker-operator/src/reconcilers: the status of a fleet, of proxies or of servers, from
-- that of the fleet of Agones (proxy_fleet/mod.rs, minecraft_server_fleet/mod.rs), and of a server
-- from that of its game server (minecraft_server/mod.rs). The clock is an argument.
use shulker.Prelude.{ℕ, Bool, ◌&&◌, ◌||◌, List, [], Option, none, some, ltb, ◌^◌, if◌then◌else◌}
use shulker.Prelude.Int32.{I32}
use shulker.Agones.{FleetStatus}
use shulker.Crds.Condition.{Condition, true_, false_, set_condition}

-- `ProxyFleetStatus` and `MinecraftServerFleetStatus`, which are alike.
pub record ReplicasStatus : Type 0 where
  pub conditions : List Condition
  pub replicas : I32
  pub ready_replicas : I32
  pub allocated_replicas : I32

-- `status.is_none()` is replaced by the default.
abbrev pub conditions_of : Option ReplicasStatus → List Condition
conditions_of none = []
conditions_of (some status) = status.conditions

-- `x > 0` of an `i32`.
abbrev is_positive : I32 → Bool
is_positive x = ltb 0 x && ltb x (2 ^ 31)

unfoldable pub set_available : ℕ → Bool → List Condition → List Condition
unfolding set_condition
set_available now available conditions =
    if available
    then set_condition now "Available" true_ "AtLeastOneReadyOrAllocated"
        "One or more servers are ready or allocated" conditions
    else set_condition now "Available" false_ "NoneReady" "No server are ready" conditions

abbrev pub is_available : FleetStatus → Bool
is_available fleet_status =
    is_positive fleet_status.ready_replicas || is_positive fleet_status.allocated_replicas

unfoldable pub status_of : ℕ → FleetStatus → Option ReplicasStatus → ReplicasStatus
unfolding set_available
status_of now fleet_status status = record {
  conditions = set_available now (is_available fleet_status) (conditions_of status);
  replicas = fleet_status.replicas;
  ready_replicas = fleet_status.ready_replicas;
  allocated_replicas = fleet_status.allocated_replicas;
}

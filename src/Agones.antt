-- ===== src/Agones.antt =====
-- packages/google-agones-crds/src/v1: the game servers, fleets and autoscalers of Agones, without
-- the parts that the program neither reads nor writes.
use shulker.Prelude.{String, Bool, List, Option}
use shulker.Prelude.Int32.{I32}
use shulker.Kubernetes.{ObjectMeta}
use shulker.Kubernetes.Pod.{PodTemplateSpec}

pub record GameServerPortSpec : Type 0 where
  pub name : String
  pub container_port : I32
  pub protocol : String

pub record GameServerHealthSpec : Type 0 where
  pub disabled : Option Bool
  pub period_seconds : Option I32
  pub failure_threshold : Option I32
  pub initial_delay_seconds : Option I32

pub record GameServerEvictionSpec : Type 0 where
  pub safe : String

pub record GameServerSpec : Type 0 where
  pub ports : Option (List GameServerPortSpec)
  pub health : Option GameServerHealthSpec
  pub template : PodTemplateSpec
  pub eviction : Option GameServerEvictionSpec

pub record GameServerStatusPort : Type 0 where
  pub name : String
  pub port : I32

pub record GameServerStatus : Type 0 where
  pub state : String
  pub address : String
  pub ports : List GameServerStatusPort

pub record FleetTemplate : Type 0 where
  pub metadata : Option ObjectMeta
  pub spec : GameServerSpec

-- The strategy of a deployment, with its two bounds.
pub record DeploymentStrategy : Type 0 where
  pub type_ : Option String
  pub max_unavailable : Option String
  pub max_surge : Option String

pub record FleetSpec : Type 0 where
  pub replicas : Option I32
  pub strategy : Option DeploymentStrategy
  pub scheduling : Option String
  pub template : FleetTemplate

pub record FleetStatus : Type 0 where
  pub replicas : I32
  pub ready_replicas : I32
  pub allocated_replicas : I32

-- The policy of an autoscaler, which the program only copies, is its text.
abbrev pub FleetAutoscalerPolicySpec : Type 0
FleetAutoscalerPolicySpec = String

pub record FleetAutoscalerSpec : Type 0 where
  pub fleet_name : String
  pub policy : FleetAutoscalerPolicySpec

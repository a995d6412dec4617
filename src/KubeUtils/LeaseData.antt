-- ===== src/KubeUtils/LeaseData.antt =====
-- packages/shulker-kube-utils/src/lease.rs: the lease and the lock, the leases that the lock writes,
-- and what it does to the API server. The API server and the clock are functions of the events
-- before, newest first; a call that fails is an event too. Times are in seconds.
use shulker.Prelude.{ℕ, ◌+◌, ◌%◌, ◌^◌, String, List, Option, none, some}
use shulker.Prelude.Int32.{I32, as_usize}
use shulker.Result.{Result}
use shulker.Kubernetes.{KubeError, PatchParams}

abbrev pub lease_duration_seconds : ℕ
lease_duration_seconds = 15

abbrev pub lease_renew_interval_seconds : ℕ
lease_renew_interval_seconds = 10

-- The fields of a lease's metadata and specification that the code reads or writes.
pub record LeaseMeta : Type 0 where
  pub namespace : Option String
  pub name : Option String
  pub resource_version : Option String
  pub managed_fields : Option String

pub record LeaseSpec : Type 0 where
  pub acquire_time : Option ℕ
  pub renew_time : Option ℕ
  pub lease_duration_seconds : Option I32
  pub holder_identity : Option String
  pub lease_transitions : Option I32

pub record Lease : Type 0 where
  pub metadata : LeaseMeta
  pub spec : Option LeaseSpec

pub record LeaseLock : Type 0 where
  pub namespace : String
  pub name : String
  pub holder_identity : String
  pub owned_patch_params : PatchParams
  pub current_resource_version : Option String

abbrev pub empty_meta : LeaseMeta
empty_meta = record {
  namespace = none;
  name = none;
  resource_version = none;
  managed_fields = none;
}

abbrev pub empty_spec : LeaseSpec
empty_spec = record {
  acquire_time = none;
  renew_time = none;
  lease_duration_seconds = none;
  holder_identity = none;
  lease_transitions = none;
}

-- What the lock does: a call of the API server, or a wait of some seconds.
pub data Event : Type 0 where
  get : String → Event
  create : Lease → Event
  patch : String → PatchParams → Lease → Event
  wait : ℕ → Event

pub record World : Type 0 where
  pub now : List Event → ℕ
  pub get_reply : List Event → String → Result KubeError Lease
  pub create_reply : List Event → Lease → Result KubeError Lease
  pub patch_reply : List Event → String → PatchParams → Lease → Result KubeError Lease

abbrev pub new_lease : LeaseLock → ℕ → Lease
new_lease lock now = record {
  metadata = record empty_meta { namespace = some lock.namespace; name = some lock.name };
  spec = some (record empty_spec {
    acquire_time = some now;
    lease_duration_seconds = some lease_duration_seconds;
    holder_identity = some lock.holder_identity;
    lease_transitions = some 1;
  });
}

abbrev pub next_transition : Option I32 → I32
next_transition none = 1
next_transition (some transitions) = (transitions + 1) % 2 ^ 32

abbrev pub take_over_spec : LeaseLock → ℕ → LeaseSpec → LeaseSpec
take_over_spec lock now spec = record spec {
  lease_transitions = some (next_transition spec.lease_transitions);
  acquire_time = some now;
  renew_time = none;
  lease_duration_seconds = some lease_duration_seconds;
  holder_identity = some lock.holder_identity;
}

abbrev pub take_over : LeaseLock → ℕ → Lease → LeaseSpec → Lease
take_over lock now lease spec = record lease {
  metadata = record (lease.metadata) { managed_fields = none };
  spec = some (take_over_spec lock now spec);
}

abbrev pub wait_time : Option LeaseSpec → ℕ
wait_time none = lease_duration_seconds
wait_time (some spec) = elim (spec.lease_duration_seconds) [
  | none ↦ lease_duration_seconds
  | some duration ↦ as_usize duration
]

abbrev pub renewal : LeaseLock → ℕ → Lease
renewal lock now = record {
  metadata = record empty_meta { resource_version = lock.current_resource_version };
  spec = some (record empty_spec { renew_time = some now });
}

abbrev pub release : LeaseLock → Lease
release lock = record {
  metadata = record empty_meta { resource_version = lock.current_resource_version };
  spec = some empty_spec;
}

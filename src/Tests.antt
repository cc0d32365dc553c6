-- ===== src/Tests.antt =====
-- Concrete inputs for the tests: resources are a number of units, and the storage holds one state.
pub mod Offers
pub mod Updates
pub mod Web
pub mod Runs
pub mod Life
pub mod Bootstrap
pub mod Events
pub mod Probing
use mesos_framework.Base.{
  ℕ, ◌+◌, ◌-◌, String, Bool, true, false, List, [], ◌∷◌, Option, none, some, ltb, not, ◌≡◌, refl,
}
use mesos_framework.Flags.{Flags, default_flags}
use mesos_framework.Proto.{
  DeviceType, running, not_running, ServiceState, NodeState, SchedulerState, ProbeRequest,
  new_service,
}
use mesos_framework.Mesos.{Offer, ResourceOps, TaskState, TaskStatus}
use mesos_framework.Scheduler.State.{Scheduler, new_host}

abbrev pub flags : Flags
flags = default_flags

abbrev pub units : ResourceOps ℕ
units = record {
  nothing = 0;
  parse = λ text. some 1;
  contains = λ a b. not (ltb a b);
  minus = λ a b. a - b;
  reserved_size = λ a role. 0;
}

abbrev pub deployed : SchedulerState
deployed = record { framework_id_value = "f1"; target_version = "1.2" }

abbrev pub shut_down : SchedulerState
shut_down = record { framework_id_value = "f1"; target_version = "" }

abbrev pub encode : ProbeRequest → String
encode request = request.client_directory

abbrev pub up : String → ServiceState
up task_id = record new_service { state = running; last_seen_s = 1000; task_id = task_id }

abbrev pub down : ServiceState
down = record new_service { state = not_running }

-- A host with a device for a registry, which runs or not.
abbrev pub node_a : ServiceState → NodeState
node_a registry = record (new_host "a" "slave1") {
  prober = up "quobyte-device-prober-a";
  registry = registry;
  device_type = DeviceType.registry ∷ [];
  device_types_valid = true;
  last_probe_s = 1000;
}

abbrev pub scheduler : ServiceState → Scheduler ℕ
scheduler registry = record {
  resources = [];
  api_state = down;
  console_state = down;
  s3_state = down;
  nodes = ("a", node_a registry) ∷ [];
}

abbrev pub offer : String → String → Offer ℕ
offer id hostname = record { id = id; hostname = hostname; slave_id = "slave1"; resources = 8 }

-- One host is known and the other is not.
abbrev pub two_offers : List (ℕ × Offer ℕ)
two_offers = (1010, offer "o1" "a") ∷ (1010, offer "o2" "b") ∷ []

abbrev pub status : String → TaskState → TaskStatus
status task_id state = record {
  task_id = task_id;
  slave_id = "slave1";
  state = state;
  message = "m";
  labels = [];
}

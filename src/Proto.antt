-- ===== src/Proto.antt =====
-- common/quobyte.proto. An optional field that is not set reads as its default, which is what the
-- accessors return; the required states read as `unknown`, the default that the file gives them.
use mesos_framework.Base.{ℕ, String, Bool, true, false, List, []}

pub data DeviceType : Type 0 where
  bootstrap registry metadata data_device client : DeviceType

-- ServiceState.TaskState
pub data ServiceTaskState : Type 0 where
  unknown not_running starting running : ServiceTaskState

pub record ServiceState : Type 0 where
  pub state : ServiceTaskState
  pub last_update_s : ℕ
  pub last_seen_s : ℕ
  pub last_message : String
  pub task_id : String

pub record NodeState : Type 0 where
  pub hostname : String
  pub slave_id_value : String
  pub prober : ServiceState
  pub registry : ServiceState
  pub metadata : ServiceState
  pub data_service : ServiceState
  pub client : ServiceState
  pub device_type : List DeviceType
  pub client_mount_point : Bool
  pub device_types_valid : Bool
  pub last_probe_s : ℕ
  pub last_offer_s : ℕ

-- This is what ZooKeeper keeps.
pub record SchedulerState : Type 0 where
  pub framework_id_value : String
  pub target_version : String

pub record ProbeRequest : Type 0 where
  pub client_directory : String
  pub initialize_path : String

pub record ProbeResponse : Type 0 where
  pub device_type : List DeviceType
  pub client_mount_point : Bool

abbrev pub new_service : ServiceState
new_service = record {
  state = unknown;
  last_update_s = 0;
  last_seen_s = 0;
  last_message = "";
  task_id = "";
}

abbrev pub new_node : NodeState
new_node = record {
  hostname = "";
  slave_id_value = "";
  prober = new_service;
  registry = new_service;
  metadata = new_service;
  data_service = new_service;
  client = new_service;
  device_type = [];
  client_mount_point = false;
  device_types_valid = false;
  last_probe_s = 0;
  last_offer_s = 0;
}

abbrev pub is_running : ServiceTaskState → Bool
is_running running = true
is_running _ = false

abbrev pub is_starting : ServiceTaskState → Bool
is_starting starting = true
is_starting _ = false

abbrev pub same_type : DeviceType → DeviceType → Bool
same_type bootstrap bootstrap = true
same_type registry registry = true
same_type metadata metadata = true
same_type data_device data_device = true
same_type client client = true
same_type _ _ = false

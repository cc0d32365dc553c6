-- ===== src/Mesos.antt =====
-- What the program uses of the Mesos library. Its messages are records of the fields that the
-- program reads or sets; its `Resources` class is a parameter; a call of the driver is an event.
use mesos_framework.Base.{ℕ, String, Bool, List, Option}

-- The states that `IsTerminal` names.
pub data TaskState : Type 0 where
  task_staging task_starting task_running task_finished : TaskState
  task_failed task_killed task_lost task_error : TaskState

pub record TaskStatus : Type 0 where
  pub task_id : String
  pub slave_id : String
  pub state : TaskState
  pub message : String
  pub labels : List (String × String)

pub record Offer {ℓ} (R : Type ℓ) : Type ℓ where
  pub id : String
  pub hostname : String
  pub slave_id : String
  pub resources : R

pub record Volume : Type 0 where
  pub container_path : String
  pub host_path : String

pub data Network : Type 0 where
  host bridge : Network

pub record DockerInfo : Type 0 where
  pub privileged : Bool
  pub network : Network
  pub image : String
  pub parameters : List (String × String)

-- Of type DOCKER; each volume is mounted read-write.
pub record ContainerInfo : Type 0 where
  pub volumes : List Volume
  pub docker : Option DockerInfo

pub record CommandInfo : Type 0 where
  pub command_line : String
  pub shell : Bool

pub record ExecutorInfo : Type 0 where
  pub executor_id : String
  pub source : String
  pub container : ContainerInfo
  pub command : CommandInfo

pub record Port : Type 0 where
  pub number : ℕ
  pub name : String
  pub protocol : String

-- Its visibility is EXTERNAL.
pub record DiscoveryInfo : Type 0 where
  pub name : String
  pub version : String
  pub labels : List (String × String)
  pub ports : List Port

pub record TaskInfo {ℓ} (R : Type ℓ) : Type ℓ where
  pub name : String
  pub task_id : String
  pub slave_id : String
  pub resources : Option R
  pub executor : Option ExecutorInfo
  pub container : Option ContainerInfo
  pub command : Option CommandInfo
  pub labels : List (String × String)
  pub discovery : Option DiscoveryInfo

-- Calls of `mesos::SchedulerDriver`. They send a message to the master and return at once; the
-- program does not read what they return.
pub data Call {ℓ} (R : Type ℓ) : Type ℓ where
  decline_offer : String → Call R
  launch_tasks : String → List (TaskInfo R) → Call R
  kill_task : String → Call R
  reconcile_tasks : List TaskStatus → Call R
  send_framework_message : String → String → String → Call R

-- `mesos::Resources`: `minus` is `-=`, and `reserved_size` the size of `reserved(role)`.
pub record ResourceOps {ℓ} (R : Type ℓ) : Type ℓ where
  pub nothing : R
  pub parse : String → Option R
  pub contains : R → R → Bool
  pub minus : R → R → R
  pub reserved_size : R → String → ℕ

pub record FrameworkInfo : Type 0 where
  pub user : String
  pub name : String
  pub role : String
  pub principal : String
  pub failover_timeout : ℕ
  pub id : String
  pub webui_url : String
  pub checkpoint : Bool

pub record Credential : Type 0 where
  pub principal : String
  pub secret : String

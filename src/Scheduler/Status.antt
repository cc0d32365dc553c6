-- ===== src/Scheduler/Status.antt =====
-- scheduler/scheduler.cpp: `statusUpdate`. The service that a task id names is a `Service`, so the
-- tests of its name are matches.
pub mod Routing
pub mod Reports
pub mod Kills
pub mod Outcome
pub mod Writes
pub mod Order
use Prim.Native.String.{String}
use mesos_framework.Base.{
  ℕ, ◌+◌, Bool, true, false, not, ◌&&◌, ◌||◌, List, [], ◌∷◌, ◌++◌, Option, none, some, ◌==◌,
  if◌then◌else◌, get_or, any,
}
use mesos_framework.Base.Text.{is_empty, rfind, substr, substr_from}
use mesos_framework.Base.Dict
use mesos_framework.Proto.{
  DeviceType, same_type, not_running, running, ServiceState, NodeState, SchedulerState, is_running,
}
use mesos_framework.Mesos.{TaskState, task_running, task_finished, TaskStatus, Call, kill_task}
use mesos_framework.Scheduler.Names.{docker_image_version}
use mesos_framework.Scheduler.Policy.{is_terminal}
use mesos_framework.Scheduler.State.{
  Scheduler, Service, prober, registry, metadata, data_service, client, api, s3, console, new_host,
  create_host, get_service, service_state, set_service_state, is_shared,
}

-- `status.state() == TASK_RUNNING || status.state() == TASK_FINISHED`
unfoldable pub is_up : TaskState → Bool
is_up task_running = true
is_up task_finished = true
is_up _ = false

abbrev pub has_type : DeviceType → NodeState → Bool
has_type t node = any (same_type t) node.device_type

-- Whether the host has what the service is for.
abbrev pub has_device_for : Service → NodeState → Bool
has_device_for registry node = has_type DeviceType.registry node
has_device_for metadata node = has_type DeviceType.metadata node
has_device_for data_service node = has_type DeviceType.data_device node
has_device_for client node = node.client_mount_point
has_device_for _ node = true

-- The variable of this name.
unfoldable pub service_should_run : Service → NodeState → ServiceState → String → Bool
service_should_run service node state task_id =
    not (is_shared service && is_running state.state && not (state.task_id == task_id))
    && not (node.device_types_valid && not (has_device_for service node))

-- The state speaks of this task, or of none.
abbrev pub owns : ServiceState → String → Bool
owns state task_id = task_id == state.task_id || is_empty state.task_id

abbrev pub seen_running : ℕ → TaskStatus → ServiceState → ServiceState
seen_running now status state = record state {
  state = running;
  last_update_s = now;
  last_seen_s = now;
  last_message = status.message;
  task_id = status.task_id;
}

abbrev pub seen_terminal : ℕ → TaskStatus → ServiceState → ServiceState
seen_terminal now status state = record state {
  state = not_running;
  last_update_s = now;
  last_message = status.message;
  task_id = "";
}

-- The value of the first label with the version's key.
unfoldable pub version_label : List (String × String) → String
version_label [] = ""
version_label ((key, v) ∷ labels) = if key == docker_image_version then v else version_label labels

abbrev is_prober : Service → Bool
is_prober prober = true
is_prober _ = false

module _ {ℓ} {R : Type ℓ} where
  -- A task of another version is logged as restarted, and left as it is.
  unfoldable pub check_version : SchedulerState → Service → TaskStatus → List (Call R)
  unfolding version_label
  check_version persisted service status =
      let version = version_label status.labels in
      if is_prober service || is_terminal status.state
      then []
      else (if is_empty persisted.target_version
          then kill_task status.task_id ∷ []
          else (if not (is_empty version) && not (version == persisted.target_version)
              then []
              else []))

  -- What the status says of the service: the new state of the service, or none, and the calls.
  unfoldable pub judge_status :
      ℕ → Service → NodeState → ServiceState → TaskStatus → Option ServiceState × List (Call R)
  unfolding is_up service_should_run
  judge_status now service node state status =
      if is_up status.state
      then (if not (service_should_run service node state status.task_id)
          then (none, kill_task status.task_id ∷ [])
          else (if owns state status.task_id
              then (some (seen_running now status state), [])
              else (none, [])))
      else (if is_terminal status.state && owns state status.task_id
          then (some (seen_terminal now status state), [])
          else (none, []))

  abbrev pub write_state : Service → String → Option ServiceState → Scheduler R → Scheduler R
  write_state service hostname none s = s
  write_state service hostname (some v) s = set_service_state service hostname v s

  -- The update of a service of a host that has a node.
  unfoldable pub update_service :
      SchedulerState → ℕ → TaskStatus → String → Service → Scheduler R → Scheduler R × List (Call R)
  unfolding judge_status check_version
  update_service persisted now status hostname service s =
      let node = get_or (new_host hostname status.slave_id) (Dict.find hostname s.nodes) in
      let (written, calls) = judge_status now service node (service_state service node s) status in
      (write_state service hostname written s, calls ++ check_version persisted service status)

  unfoldable pub update_found :
      SchedulerState
      → ℕ
      → TaskStatus
      → String
      → Option Service
      → Scheduler R
      → Scheduler R × List (Call R)
  update_found persisted now status hostname none s = (s, [])
  update_found persisted now status hostname (some service) s =
      update_service persisted now status hostname service s

  -- `none` is `npos`: the task id has no dash.
  unfoldable pub update_at :
      SchedulerState → ℕ → TaskStatus → Option ℕ → Scheduler R → Scheduler R × List (Call R)
  unfolding update_found
  update_at persisted now status none s = (s, [])
  update_at persisted now status (some p) s =
      let service = substr status.task_id 0 p in
      let hostname = substr_from status.task_id (p + 1) in
      update_found persisted now status hostname (get_service service)
        (create_host hostname status.slave_id s)

  -- A host without a node gets one; an insertion changes nothing where there is a node.
  unfoldable pub status_update :
      SchedulerState → ℕ → TaskStatus → Scheduler R → Scheduler R × List (Call R)
  unfolding update_at
  status_update persisted now status s = update_at persisted now status (rfind status.task_id) s

-- ===== src/Scheduler/Policy.antt =====
-- scheduler/scheduler.cpp: when a service is started, and when it is killed.
pub mod Starting
use mesos_framework.Base.{ℕ, ◌+◌, String, Bool, true, false, not, ◌&&◌, ◌||◌, List, [], ◌∷◌, ◌==◌}
use mesos_framework.Base.{ltb, eqb, if◌then◌else◌, length}
use mesos_framework.Flags.{Flags}
use mesos_framework.Proto.{
  ServiceTaskState, unknown, not_running, starting, running, ServiceState, NodeState, is_running,
}
use mesos_framework.Mesos.{
  TaskState, task_staging, task_starting, task_running, task_finished, task_failed, task_killed,
  task_lost, task_error, Call, kill_task,
}
use mesos_framework.Scheduler.Names.{registry_task, metadata_task, data_task}

unfoldable pub is_terminal : TaskState → Bool
is_terminal task_staging = false
is_terminal task_starting = false
is_terminal task_running = false
is_terminal task_finished = true
is_terminal task_failed = true
is_terminal task_killed = true
is_terminal task_lost = true
is_terminal task_error = true

unfoldable pub should_service_be_started : ServiceTaskState → Bool
should_service_be_started starting = false
should_service_be_started running = false
should_service_be_started unknown = false
should_service_be_started not_running = true

abbrev pub one_if_running : ServiceState → ℕ
one_if_running s = if is_running s.state then 1 else 0

-- The variable of this name in `DoStartService`.
abbrev pub core_services_running : NodeState → ℕ
core_services_running node =
    one_if_running node.registry + one_if_running node.metadata + one_if_running node.data_service

unfoldable pub do_start_service : String → NodeState → ServiceTaskState → Bool
unfolding should_service_be_started
do_start_service service_type node state =
    if not node.device_types_valid
    then false
    else (if not (eqb (core_services_running node) (length node.device_type))
          && not (service_type == registry_task)
          && not (service_type == metadata_task)
          && not (service_type == data_task)
        then false
        else should_service_be_started state)

unfoldable pub kill_service_if_running {ℓ} : {R : Type ℓ} → String → ServiceState → List (Call R)
kill_service_if_running task_id service =
    if is_running service.state then kill_task task_id ∷ [] else []

-- The program defines this test and does not call it. Elapsed time is compared without a
-- subtraction.
unfoldable pub no_recent_updates : Flags → ℕ → ServiceState → Bool
no_recent_updates flags now service =
    eqb service.last_update_s 0
    || ltb (flags.reconcile_service_interval_s + service.last_update_s) now

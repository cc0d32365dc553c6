-- ===== src/Tests/Runs.antt =====
-- Tests of runs of several handlers.
use mesos_framework.Base.{ℕ, String, refl, ◌⊎◌, ◌≡◌, ◌≢◌, false, [], ◌∷◌, Option, some, get_or}
use mesos_framework.Base.Dict
use mesos_framework.Base.Text.{rfind}
use mesos_framework.Proto.{DeviceType, running, not_running, ProbeResponse}
use mesos_framework.Mesos.{task_running, task_failed}
use mesos_framework.Scheduler.State.{
  Scheduler, registry, get_service, create_host, quobyte_scheduler,
}
use mesos_framework.Scheduler.State.Fields.{state_of}
use mesos_framework.Scheduler.Status.{status_update, update_service}
use mesos_framework.Scheduler.Runs.{Reachable, start, next, update}
use mesos_framework.Scheduler.Runs.Kept.{Step-running}
use mesos_framework.Scheduler.Runs.Tracked.{Reachable-IsTracked}
use mesos_framework.Tests.{flags, units, deployed, encode, down, scheduler, status}

abbrev pub decode : String → Option ProbeResponse
decode payload =
    some (record { device_type = DeviceType.data_device ∷ []; client_mount_point = false })

-- What the constructor leaves, and the state once a registry is reported to run.
abbrev pub initial : Scheduler ℕ
initial = get_or (scheduler down) (quobyte_scheduler flags units)

abbrev reported : Scheduler ℕ
reported = (status_update deployed 1020 (status "quobyte-registry-a" task_running) initial).0

reported-Reachable : Reachable flags units encode decode reported
unfolding quobyte_scheduler
reported-Reachable =
    next (start {s = initial} refl)
      (update deployed 1020 (status "quobyte-registry-a" task_running) refl)

Reachable-IsTracked_example : (state_of registry "a" reported).task_id ≢ ""
unfolding status_update quobyte_scheduler Dict.find Dict.modify Dict.insert rfind get_service
    update_service create_host
Reachable-IsTracked_example =
    Reachable-IsTracked flags units encode decode reported registry "a" reported-Reachable refl

-- The registry fails.
abbrev failed : Scheduler ℕ
failed = (status_update deployed 1030 (status "quobyte-registry-a" task_failed) reported).0

Step-running_example :
    (((state_of registry "a" failed).state ≡ running)
      × ((state_of registry "a" failed).task_id ≡ "quobyte-registry-a"))
    ⊎ (((state_of registry "a" failed).state ≡ not_running)
        × ((state_of registry "a" failed).task_id ≡ ""))
unfolding status_update quobyte_scheduler Dict.find Dict.modify Dict.insert rfind get_service
    update_service create_host
Step-running_example =
    Step-running flags units encode decode reported failed registry "a" reported-Reachable
      (update deployed 1030 (status "quobyte-registry-a" task_failed) refl) refl

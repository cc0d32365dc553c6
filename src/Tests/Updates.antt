-- ===== src/Tests/Updates.antt =====
-- Tests of the scheduler's treatment of status updates and of the prober's messages.
use mesos_framework.Base.{
  ◌≤◌, String, ◌≡◌, refl, ◌≢◌, ◌⊎◌, ◌↔◌, inl, true, false, [], ◌∷◌, Option, some, All,
}
use mesos_framework.Base.Text.{NoDash}
use mesos_framework.Base.Dict
use mesos_framework.Proto.{running, not_running, ServiceState, DeviceType, ProbeResponse}
use mesos_framework.Mesos.{TaskStatus, kill_task, task_running, task_failed}
use mesos_framework.Scheduler.State.{registry, metadata, api, create_host}
use mesos_framework.Scheduler.State.Fields.{state_of}
use mesos_framework.Scheduler.Status.{is_up, status_update}
use mesos_framework.Scheduler.Status.Routing.{status_update_dash}
use mesos_framework.Scheduler.Status.Reports.{
  node_of, updated, status_update_stale, status_update_frame,
}
use mesos_framework.Scheduler.Status.Outcome.{
  IsOwnedBy, IsOwnedByOther, IsUp, HasFailed, IsPending, new_state, status_update-state,
}
use mesos_framework.Scheduler.Status.Kills.{calls, IsUnwanted, IsShutdown, status_update-kill_task}
use mathlib.Core.Option
use mesos_framework.Scheduler.Policy.Starting.{running_count}
use mesos_framework.Scheduler.Probe.{count_running_services}
use mesos_framework.Scheduler.Probe.Responses.{count_running_services_lem, services_of}
use mesos_framework.Scheduler.Status.Order.{status_update-order}
use mesos_framework.Tests.{node_a, deployed, shut_down, up, down, scheduler, status}

-- Every message says that the host has a device for data.
abbrev decode : String → Option ProbeResponse
decode payload =
    some (record { device_type = DeviceType.data_device ∷ []; client_mount_point = false })

pub a-NoDash : NoDash "a"
a-NoDash = (λ e. cc, tt)

-- The registry of a host named "node-a" is lost: a host "a" gets a node in its place.
status_update_dash_example :
    status_update deployed 1020 (status "quobyte-registry-node-a" task_running) (scheduler down)
    ≡ (create_host "a" "slave1" (scheduler down), [])
status_update_dash_example =
    status_update_dash deployed 1020 (status "quobyte-registry-node-a" task_running)
      (scheduler down) registry "node" "a" refl a-NoDash

-- A registry that is down is reported up.
abbrev reported_up : TaskStatus
reported_up = status "quobyte-registry-a" task_running

abbrev registry_after : ServiceState
registry_after = new_state deployed 1020 reported_up (scheduler down) registry "a" refl a-NoDash

abbrev RegistryUnwanted : Type 0
RegistryUnwanted =
    IsUnwanted registry (node_of "a" "slave1" (scheduler down)) down "quobyte-registry-a"

status_update-state_example :
    (IsUp task_running
      × (¬ RegistryUnwanted)
      × IsOwnedBy "quobyte-registry-a" down
      × (registry_after ≡ record down {
        state = running;
        last_update_s = 1020;
        last_seen_s = 1020;
        last_message = "m";
        task_id = "quobyte-registry-a";
      }))
    ⊎ (HasFailed task_running
        × IsOwnedBy "quobyte-registry-a" down
        × (registry_after ≡ record down {
          state = not_running;
          last_update_s = 1020;
          last_message = "m";
          task_id = "";
        }))
    ⊎ (((IsUp task_running × (RegistryUnwanted ⊎ IsOwnedByOther "quobyte-registry-a" down))
          ⊎ (HasFailed task_running × IsOwnedByOther "quobyte-registry-a" down)
          ⊎ IsPending task_running)
        × (registry_after ≡ down))
unfolding Dict.find
status_update-state_example =
    status_update-state deployed 1020 reported_up (scheduler down) registry "a" refl a-NoDash

-- The registry on record has another task id.
status_update_stale_example :
    state_of registry "a" (
      updated deployed 1020
        (status "quobyte-registry-a" task_failed)
        (scheduler (up "older"))
        registry
        "a"
        refl
        a-NoDash)
    ≡ up "older"
unfolding Dict.find
status_update_stale_example =
    status_update_stale deployed 1020 (status "quobyte-registry-a" task_failed)
      (scheduler (up "older")) registry "a" refl a-NoDash registry "a" refl

status_update_frame_example :
    state_of metadata "a" (
      updated deployed 1020
        (status "quobyte-registry-a" task_running)
        (scheduler down)
        registry
        "a"
        refl
        a-NoDash)
    ≡ state_of metadata "a" (scheduler down)
status_update_frame_example =
    status_update_frame deployed 1020 (status "quobyte-registry-a" task_running) (scheduler down)
      registry "a" refl a-NoDash metadata "a" (inl (λ e. cc))

-- Everything is shut down, so a running registry is killed.
status_update-kill_task_example :
    All
      (λ c. c ≡ kill_task "quobyte-registry-a")
      (calls shut_down 1020
        (status "quobyte-registry-a" task_running)
        (scheduler down)
        registry
        "a"
        refl
        a-NoDash)
    × ((calls shut_down 1020
            (status "quobyte-registry-a" task_running)
            (scheduler down)
            registry
            "a"
            refl
            a-NoDash
          ≢ [])
        ↔ (((is_up task_running ≡ true)
              × IsUnwanted registry
                  (node_of "a" "slave1" (scheduler down))
                  down
                  "quobyte-registry-a")
            ⊎ IsShutdown shut_down registry (status "quobyte-registry-a" task_running)))
unfolding Dict.find
status_update-kill_task_example =
    status_update-kill_task shut_down 1020 (status "quobyte-registry-a" task_running)
      (scheduler down) registry "a" refl a-NoDash

count_running_services_lem_example :
    (count_running_services (scheduler (up "quobyte-registry-a"))
      ≡ running_count (services_of (scheduler (up "quobyte-registry-a"))))
    × (count_running_services (scheduler (up "quobyte-registry-a")) ≤ 6)
count_running_services_lem_example =
    count_running_services_lem (scheduler (up "quobyte-registry-a"))

-- The registry of a host runs, and the API fails.
status_update-order_example :
    ((status_update deployed 1021
        (status "quobyte-api-a" task_failed)
        (status_update deployed 1020
          (status "quobyte-registry-a" task_running)
          (scheduler down)).0).0
      ≡ (status_update deployed 1020
          (status "quobyte-registry-a" task_running)
          (status_update deployed 1021 (status "quobyte-api-a" task_failed) (scheduler down)).0).0)
    × ((status_update deployed 1021
          (status "quobyte-api-a" task_failed)
          (status_update deployed 1020
            (status "quobyte-registry-a" task_running)
            (scheduler down)).0).1
        ≡ (status_update deployed 1021 (status "quobyte-api-a" task_failed) (scheduler down)).1)
    × ((status_update deployed 1020
          (status "quobyte-registry-a" task_running)
          (status_update deployed 1021 (status "quobyte-api-a" task_failed) (scheduler down)).0).1
        ≡ (status_update deployed 1020
            (status "quobyte-registry-a" task_running)
            (scheduler down)).1)
unfolding Dict.find
status_update-order_example =
    status_update-order deployed registry api "a" "a" (status "quobyte-registry-a" task_running)
      (status "quobyte-api-a" task_failed) 1020 1021 (scheduler down) (node_a down) (node_a down)
      refl refl a-NoDash a-NoDash refl refl (inl (λ e. cc))

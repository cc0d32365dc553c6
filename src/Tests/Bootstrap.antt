-- ===== src/Tests/Bootstrap.antt =====
-- Tests of a host that is new.
use mesos_framework.Base.{ℕ, String, ◌≡◌, refl, List, [], ◌∷◌, ◌++◌, Option, some, false, arith}
use mesos_framework.Base.Text.{NoDash}
use mesos_framework.Base.Dict
use mesos_framework.Proto.{DeviceType, running, SchedulerState, ProbeResponse}
use mesos_framework.Mesos.{TaskInfo, Call, launch_tasks, task_lost, task_running}
use mesos_framework.Scheduler.State.{Scheduler, registry, quobyte_scheduler}
use mesos_framework.Scheduler.State.Fields.{state_of}
use mesos_framework.System.{System, run}
use mesos_framework.System.Bootstrap.{bootstrap, new_host-registry}
use mesos_framework.Tests.{flags, units, deployed, encode, status}
use mesos_framework.Tests.Offers.{default_flags-IsReady}
use mesos_framework.Tests.Runs.{initial}
use mesos_framework.Tests.Web.{cell, verbatim, silent}
use mesos_framework.Tests.Life.{proxy_of}

-- The prober finds a device for a registry.
abbrev found : ProbeResponse
found = record { device_type = DeviceType.registry ∷ []; client_mount_point = false }

abbrev decode_found : String → Option ProbeResponse
decode_found payload = some found

abbrev before : System SchedulerState ℕ
before = record { proxy = proxy_of deployed; scheduler = initial }

b-NoDash : NoDash "b"
b-NoDash = (λ e. cc, tt)

new_host-registry_example :
    (s' : Scheduler ℕ) × (watcher service : TaskInfo ℕ) × (made probed rest : List (Call ℕ)) × (run
        cell verbatim flags units encode decode_found silent
        (bootstrap cell verbatim flags units encode decode_found silent default_flags-IsReady "b"
          "slave1" b-NoDash refl 10 11 70 71 130 131 140 141 "o1" "o3" "o5" "o7" 8 8 8 8
          (status "quobyte-registry-b" task_lost)
          (status "quobyte-registry-b" task_running)
          "p")
        before
      ≡ some (
        record before { scheduler = s' },
        (made ++ launch_tasks "o3" (watcher ∷ []) ∷ probed)
            ++ launch_tasks "o7" (service ∷ []) ∷ rest,
      ))
    × (watcher.task_id ≡ "quobyte-device-prober-b")
    × (service.task_id ≡ "quobyte-registry-b")
    × ((state_of registry "b" s').state ≡ running)
unfolding Dict.find quobyte_scheduler Dict.insert
new_host-registry_example =
    new_host-registry cell verbatim flags units encode decode_found silent default_flags-IsReady "b"
      "slave1" b-NoDash refl before 10 11 70 71 130 131 140 141 "o1" "o3" "o5" "o7" 8 8 8 8
      (status "quobyte-registry-b" task_lost) (status "quobyte-registry-b" task_running) "p" found
      refl (λ e. cc) (refl, refl) (omega arith) refl (omega arith) (omega arith) refl refl refl
      (refl, refl)
